-- ===== src/Tests/Server.antt =====
-- Requests to the server.
use judge.Base.{◌≡◌, refl, true, false, [], ◌∷◌, none, some, count}
use judge.Prisma.Memory.{memory}
use judge.Auth.{auth_optional, read_token}
use judge.Accounts.Register.{IsUnique, has_rights}
use judge.Server.{Platform, Incoming, Process, serve}
use judge.Server.Routes.{Method, route, mounts, routed, matches}
use judge.Server.Writers.{catalogue}
use judge.Server.Safety.{history, history-IsUnique, outsider_keeps_catalogue, anonymous_reads}
use judge.Tests.Accounts.{db-IsUnique, carol}
use judge.Tests.World.{
  db, jwt, bcrypt, texts, plain64, service, crypto, env, to_ms, submission, new_data, fresh,
  case_ids, results,
}

abbrev platform : Platform
platform = record {
  jwt = jwt;
  jwt_secret = none;
  production = false;
  bcrypt = bcrypt;
  is_email = λ e. true;
  texts = texts;
  collate = λ a b. true;
  base64 = plain64;
  service = service;
  crypto = crypto;
  env = env;
  to_ms = to_ms;
}

-- a registration, without a session
abbrev registration : Incoming
registration = record {
  method = Method.post;
  path = "api" ∷ "auth" ∷ "register" ∷ [];
  headers = record { cookie_token = none; authorization = none };
  admitted = true;
  problem_query = record { difficulty = none; tag = none; search = none };
  submission_query = record { problem = none; mine = none };
  discussion_query = none;
  callback_query = record { sub_id = none; case_id = none; sig = none };
  register_body = some carol;
  login_body = none;
  run_body = none;
  submit_body = some submission;
  create_body = none;
  reply_body = none;
  problem_body = some new_data;
  result_body = results "t1";
  now = 10;
  done = 11;
  id = "u3";
  salt = "salt";
  ids = case_ids;
  fresh = fresh;
}

-- a new problem, without a session
abbrev creation : Incoming
creation = record registration { path = "api" ∷ "admin" ∷ "problems" ∷ [] }

abbrev process : Process
process = record { db = db; cache = none }

history-IsUnique_example :
    IsUnique (history ⦃prisma = memory⦄ platform (registration ∷ creation ∷ []) process).db.users
    × (count has_rights
          (history ⦃prisma = memory⦄ platform (registration ∷ creation ∷ []) process).db.users
        ≡ count has_rights db.users)
history-IsUnique_example =
    history-IsUnique ⦃prisma = memory⦄ platform (registration ∷ creation ∷ []) process db-IsUnique

outsider_keeps_catalogue_example :
    catalogue (serve ⦃prisma = memory⦄ platform creation process).1.db ≡ catalogue db
unfolding auth_optional read_token
outsider_keeps_catalogue_example =
    outsider_keeps_catalogue ⦃prisma = memory⦄ platform creation process tt

anonymous_reads_example : (serve ⦃prisma = memory⦄ platform creation process).1.db ≡ db
unfolding auth_optional read_token route mounts routed matches
anonymous_reads_example = anonymous_reads ⦃prisma = memory⦄ platform creation process refl refl
