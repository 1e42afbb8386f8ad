-- ===== src/Params/Tests.antt =====
-- Runs of the definitions of fs/params.c, and the witnesses of the theorems about it.
use biscuit_os_memory.Common.{
  ℕ, ◌+◌, ◌≡◌, ◌≢◌, ◌-◌, refl, ◌==◌, update, if◌then◌else◌, Option, none, some, List, [], ◌∷◌,
  arith,
}
use biscuit_os_memory.Params.{
  dash2underscore, parameq, skip_spaces, equals_after, quote_after, scan_arg, cut_quote, split_arg,
  end_arg, next_arg, Param, Setter, parse_one, parse_args,
}
use biscuit_os_memory.Params.Equal.{same_name, parameq_lem}
use biscuit_os_memory.Params.Ends.{next_arg-Token, Token}

-- A memory with some bytes from an address on, and zeros elsewhere.
abbrev bytes_from : ℕ → List ℕ → ℕ → ℕ
bytes_from at [] j = 0
bytes_from at (c ∷ cs) j = if at == j then c else bytes_from (at + 1) cs j

-- ` a-b=7` at 100, and the name `a_b` at 200
abbrev line : ℕ → ℕ
line j =
    if bytes_from 100 (32 ∷ 97 ∷ 45 ∷ 98 ∷ 61 ∷ 55 ∷ []) j == 0
    then bytes_from 200 (97 ∷ 95 ∷ 98 ∷ []) j
    else bytes_from 100 (32 ∷ 97 ∷ 45 ∷ 98 ∷ 61 ∷ 55 ∷ []) j

-- The parameter keeps the first byte of its value, and puts the `=` back.
abbrev keep_byte : Setter ℕ
keep_byte none mem s = (1, (mem, s))
keep_byte (some v) mem s = (0, (update mem (v - 1) 61, mem v))

abbrev one_param : List (Param ℕ)
one_param = (200, keep_byte) ∷ []

parsed : Option (ℕ × ℕ)
parsed = parse_args 10 10 one_param none line 100 0

parsed_is : parsed ≡ some (0, 55)
unfolding parsed parse_args parse_one next_arg end_arg split_arg cut_quote scan_arg quote_after
    equals_after skip_spaces parameq dash2underscore
parsed_is = refl

byte : (n : ℕ) → n + 1 ≢ 0
byte n z = absurd (omega (arith, z))

parameq_lem_example :
    parameq 6 line 101 200 ≡ same_name (97 ∷ 45 ∷ 98 ∷ 61 ∷ 55 ∷ []) (97 ∷ 95 ∷ 98 ∷ [])
parameq_lem_example =
    parameq_lem 6 line 101 200 (97 ∷ 45 ∷ 98 ∷ 61 ∷ 55 ∷ []) (97 ∷ 95 ∷ 98 ∷ []) (omega arith)
      (
        refl,
        (byte 96, (refl, (byte 44, (refl, (byte 97, (refl, (byte 60, (refl, (byte 54, refl))))))))),
      )
      (refl, (byte 96, (refl, (byte 94, (refl, (byte 97, refl))))))

next_arg-Token_example : Token 100 106 line (next_arg 10 line 100)
next_arg-Token_example =
    next_arg-Token 10 106 100 line refl (omega arith) (λ z. absurd (omega (arith, z))) (omega arith)
