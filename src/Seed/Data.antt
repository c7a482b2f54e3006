-- ===== src/Seed/Data.antt =====
-- The tags and the problems of platform/backend/prisma/seed.ts. The starter codes stand in the order of
-- their languages' numbers, in which JavaScript lists the members of an object that are numbers.
use judge.Base.{String, true, false, List, [], ◌∷◌, none, some}
use judge.Schema.{easy, medium, pos}
use judge.Seed.{SeedProblem}

pub record TagDef : Type 0 where
  pub slug : String
  pub name : String

unfoldable pub tag_defs : List TagDef
tag_defs =
    record { slug = "array"; name = "Array" }
    ∷ record { slug = "hashing"; name = "Hashing" }
    ∷ record { slug = "string"; name = "String" }
    ∷ record { slug = "math"; name = "Math" }
    ∷ record { slug = "two-pointers"; name = "Two Pointers" }
    ∷ []

unfoldable pub sum_of_two : SeedProblem
sum_of_two = record {
  slug = "sum-of-two";
  title = "Sum of Two Numbers";
  difficulty = easy;
  statement_md =
      "Read two integers `a` and `b` from stdin (single line, space separated) and print their sum.\n\n**Input**\n```\n1 2\n```\n\n**Output**\n```\n3\n```";
  constraints_md = some "`-10^9 <= a, b <= 10^9`";
  tags = "math" ∷ [];
  starter =
      record {
        language_id = pos 54;
        code = "#include <iostream>\nint main(){long long a,b;std::cin>>a>>b;std::cout<<a+b;}\n";
      }
      ∷ record {
        language_id = pos 63;
        code =
            "const [a,b] = require('fs').readFileSync(0,'utf8').trim().split(/\\s+/).map(Number);\nconsole.log(a+b);\n";
      }
      ∷ record { language_id = pos 71; code = "a, b = map(int, input().split())\nprint(a + b)\n" }
      ∷ [];
  cases =
      record { input = "1 2\n"; expected_output = "3\n"; is_sample = true; order = pos 0 }
      ∷ record { input = "10 -4\n"; expected_output = "6\n"; is_sample = true; order = pos 1 }
      ∷ record {
        input = "999999999 1\n";
        expected_output = "1000000000\n";
        is_sample = false;
        order = pos 2;
      }
      ∷ record {
        input = "-500 -500\n";
        expected_output = "-1000\n";
        is_sample = false;
        order = pos 3;
      }
      ∷ [];
}

unfoldable pub reverse_string : SeedProblem
reverse_string = record {
  slug = "reverse-string";
  title = "Reverse a String";
  difficulty = easy;
  statement_md =
      "Read a single line of input and print it reversed.\n\n**Input**\n```\nhello\n```\n\n**Output**\n```\nolleh\n```";
  constraints_md = none;
  tags = "string" ∷ [];
  starter =
      record {
        language_id = pos 54;
        code =
            "#include <bits/stdc++.h>\nint main(){std::string s;std::cin>>s;std::reverse(s.begin(),s.end());std::cout<<s;}\n";
      }
      ∷ record {
        language_id = pos 63;
        code =
            "console.log(require('fs').readFileSync(0,'utf8').trim().split('').reverse().join(''));\n";
      }
      ∷ record { language_id = pos 71; code = "print(input()[::-1])\n" }
      ∷ [];
  cases =
      record { input = "hello\n"; expected_output = "olleh\n"; is_sample = true; order = pos 0 }
      ∷ record { input = "abc\n"; expected_output = "cba\n"; is_sample = true; order = pos 1 }
      ∷ record {
        input = "racecar\n";
        expected_output = "racecar\n";
        is_sample = false;
        order = pos 2;
      }
      ∷ [];
}

unfoldable pub fizz_buzz : SeedProblem
fizz_buzz = record {
  slug = "fizz-buzz";
  title = "Fizz Buzz";
  difficulty = easy;
  statement_md =
      "Read an integer `n` and print the FizzBuzz sequence from 1 to `n`, one number per line.\nPrint \"Fizz\" for multiples of 3, \"Buzz\" for multiples of 5, and \"FizzBuzz\" for multiples of both.";
  constraints_md = none;
  tags = "math" ∷ [];
  starter =
      record {
        language_id = pos 63;
        code =
            "const n = parseInt(require('fs').readFileSync(0,'utf8'));\nfor (let i=1;i<=n;i++){\n  if(i%15===0) console.log('FizzBuzz');\n  else if(i%3===0) console.log('Fizz');\n  else if(i%5===0) console.log('Buzz');\n  else console.log(i);\n}\n";
      }
      ∷ record {
        language_id = pos 71;
        code =
            "n = int(input())\nfor i in range(1, n+1):\n    if i % 15 == 0: print(\"FizzBuzz\")\n    elif i % 3 == 0: print(\"Fizz\")\n    elif i % 5 == 0: print(\"Buzz\")\n    else: print(i)\n";
      }
      ∷ [];
  cases =
      record {
        input = "5\n";
        expected_output = "1\n2\nFizz\n4\nBuzz\n";
        is_sample = true;
        order = pos 0;
      }
      ∷ record {
        input = "15\n";
        expected_output =
            "1\n2\nFizz\n4\nBuzz\nFizz\n7\n8\nFizz\nBuzz\n11\nFizz\n13\n14\nFizzBuzz\n";
        is_sample = false;
        order = pos 1;
      }
      ∷ [];
}

unfoldable pub two_sum_indices : SeedProblem
two_sum_indices = record {
  slug = "two-sum-indices";
  title = "Two Sum Indices";
  difficulty = medium;
  statement_md =
      "First line: `n` and target `t`. Second line: `n` integers.\nPrint the (1-indexed) indices i j (i<j) of two numbers that add up to `t`. If multiple answers exist, print the lexicographically smallest pair.";
  constraints_md = none;
  tags = "array" ∷ "hashing" ∷ [];
  starter =
      record {
        language_id = pos 71;
        code =
            "import sys\ndata = sys.stdin.read().split()\nn, t = int(data[0]), int(data[1])\nnums = list(map(int, data[2:2+n]))\nseen = {}\nfor i, x in enumerate(nums):\n    if t - x in seen:\n        print(seen[t-x]+1, i+1)\n        break\n    seen.setdefault(x, i)\n";
      }
      ∷ [];
  cases =
      record {
        input = "4 9\n2 7 11 15\n";
        expected_output = "1 2\n";
        is_sample = true;
        order = pos 0;
      }
      ∷ record {
        input = "3 6\n3 2 4\n";
        expected_output = "2 3\n";
        is_sample = true;
        order = pos 1;
      }
      ∷ record {
        input = "5 10\n1 5 4 6 9\n";
        expected_output = "2 4\n";
        is_sample = false;
        order = pos 2;
      }
      ∷ [];
}

unfoldable pub seed_problems : List SeedProblem
unfolding sum_of_two reverse_string fizz_buzz two_sum_indices
seed_problems = sum_of_two ∷ reverse_string ∷ fizz_buzz ∷ two_sum_indices ∷ []
