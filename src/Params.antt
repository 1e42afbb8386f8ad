-- ===== src/Params.antt =====
-- The parsing of the command line in fs/params.c. A string is where it starts in a memory of bytes, and
-- ends before its first zero. What a parameter does with its value is a parameter of the model.
use biscuit_os_memory.Common.{
  ℕ, zero, suc, ◌+◌, ◌-◌, Bool, true, false, ltb, ◌==◌, not, ◌&&◌, if◌then◌else◌, nonzero, update,
  Option, none, some, List, [], ◌∷◌,
}
use biscuit_os_memory.Buddy.{word}
pub mod Equal
pub mod Ends
mod Tests

-- `dash2underscore_bs`: 45 is the dash, 95 the underscore.
unfoldable pub dash2underscore : ℕ → ℕ
dash2underscore c = if c == 45 then 95 else c

-- `parameq_bs`, in at most `rounds` rounds
unfoldable pub parameq : ℕ → (ℕ → ℕ) → ℕ → ℕ → Bool
parameq zero mem input paramname = false
parameq (suc rounds) mem input paramname =
    let rest = parameq rounds mem (input + 1) (paramname + 1) in
    if dash2underscore (mem input) == mem paramname
    then (if mem input == 0 then true else rest)
    else false

-- `while (*args == ' ') args++` of `next_arg_bs`, in at most `rounds` rounds
unfoldable pub skip_spaces : ℕ → (ℕ → ℕ) → ℕ → ℕ
skip_spaces zero mem args = args
skip_spaces (suc rounds) mem args =
    let rest = skip_spaces rounds mem (args + 1) in if mem args == 32 then rest else args

-- What the scan of an argument finds: where it ends, and where its `=` is, both from its start.
pub record Scan : Type 0 where
  pub i : ℕ
  pub equals : ℕ

-- A byte of the argument: the place of the `=` so far, and whether the next one is in quotes.
unfoldable pub equals_after : (ℕ → ℕ) → ℕ → ℕ → ℕ → ℕ
equals_after mem args i equals =
    if equals == 0 then (if mem (args + i) == 61 then i else equals) else equals

unfoldable pub quote_after : (ℕ → ℕ) → ℕ → ℕ → Bool → Bool
quote_after mem args i in_quote = if mem (args + i) == 34 then not in_quote else in_quote

-- The loop of `next_arg_bs` over the argument, in at most `rounds` rounds
unfoldable pub scan_arg : ℕ → (ℕ → ℕ) → ℕ → ℕ → ℕ → Bool → Scan
scan_arg zero mem args i equals in_quote = record { i = i; equals = equals }
scan_arg (suc rounds) mem args i equals in_quote =
    let rest =
      scan_arg rounds mem args (i + 1) (equals_after mem args i equals)
        (quote_after mem args i in_quote) in
    if mem (args + i) == 0
    then record { i = i; equals = equals }
    else if (mem (args + i) == 32) && not in_quote
    then record { i = i; equals = equals }
    else rest

-- What `next_arg_bs` leaves: the memory, the rest of the string, the name and the value.
pub record Arg : Type 0 where
  pub mem : ℕ → ℕ
  pub next : ℕ
  pub param : ℕ
  pub val : Option ℕ

-- A quote just before a place is cut off.
unfoldable pub cut_quote : Bool → ℕ → (ℕ → ℕ) → ℕ → ℕ
cut_quote wanted at mem = if wanted && (mem (at - 1) == 34) then update mem (at - 1) 0 else mem

-- The name and the value of `next_arg_bs`, once the argument is scanned.
unfoldable pub split_arg : (ℕ → ℕ) → ℕ → Bool → Scan → (ℕ → ℕ) × Option ℕ
split_arg mem args quoted s =
    let mem1 = update mem (args + s.equals) 0 in
    let val = args + s.equals + 1 in
    let opens = mem1 val == 34 in
    let mem2 = cut_quote opens (args + s.i) mem1 in
    if s.equals == 0
    then (mem, none)
    else (cut_quote quoted (args + s.i) mem2, some (if opens then val + 1 else val))

-- The end of `next_arg_bs`: the argument is cut off, and the rest starts behind it.
unfoldable pub end_arg : ℕ → Scan → (ℕ → ℕ) × Option ℕ → Arg
end_arg args s r =
    if nonzero ((r.0) (args + s.i))
    then record {
      mem = update (r.0) (args + s.i) 0;
      next = args + s.i + 1;
      param = args;
      val = r.1;
    }
    else record { mem = r.0; next = args + s.i; param = args; val = r.1 }

-- `next_arg_bs`; each of its loops has at most `rounds` rounds.
unfoldable pub next_arg : ℕ → (ℕ → ℕ) → ℕ → Arg
next_arg rounds mem args =
    let start = skip_spaces rounds mem args in
    let quoted = mem start == 34 in
    let args' = if quoted then start + 1 else start in
    let s = scan_arg rounds mem args' 0 0 quoted in end_arg args' s (split_arg mem args' quoted s)

abbrev pub enoent : ℕ
enoent = word - 2

-- What `set` of a parameter returns for a value, and what it does, also to the memory.
abbrev pub Setter {ℓ} : Type ℓ → Type ℓ
Setter S = Option ℕ → (ℕ → ℕ) → S → ℕ × ((ℕ → ℕ) × S)

-- `kernel_param_bs`: the name and `set`
abbrev pub Param {ℓ} : Type ℓ → Type ℓ
Param S = ℕ × Setter S

module _ {ℓ} {S : Type ℓ} where
  -- `parse_one_bs`
  unfoldable pub parse_one :
      ℕ → List (Param S) → Option (ℕ → Setter S) → ℕ → Option ℕ → (ℕ → ℕ) → S → ℕ × ((ℕ → ℕ) × S)
  parse_one rounds [] none param val mem s = (enoent, (mem, s))
  parse_one rounds [] (some handle_unknown) param val mem s = handle_unknown param val mem s
  parse_one rounds (p ∷ params) unknown param val mem s =
      let rest = parse_one rounds params unknown param val mem s in
      if parameq rounds mem param (p.0) then (p.1) val mem s else rest

  -- `parse_args_bs`, in at most `rounds` rounds; none when they are used up.
  unfoldable pub parse_args :
      ℕ → ℕ → List (Param S) → Option (ℕ → Setter S) → (ℕ → ℕ) → ℕ → S → Option (ℕ × S)
  parse_args rounds zero params unknown mem args s = if mem args == 0 then some (0, s) else none
  parse_args rounds (suc left) params unknown mem args s =
      let a = next_arg rounds mem args in
      let r = parse_one rounds params unknown a.param a.val a.mem s in
      let rest = parse_args rounds left params unknown ((r.1).0) a.next ((r.1).1) in
      if mem args == 0 then some (0, s) else if r.0 == 0 then rest else some (r.0, (r.1).1)
