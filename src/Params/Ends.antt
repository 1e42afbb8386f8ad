-- ===== src/Params/Ends.antt =====
-- The parsing of fs/params.c comes to an end, inside the string.
use biscuit_os_memory.Common.{
  ℕ, zero, suc, ◌+◌, ◌-◌, ◌≤◌, ◌<◌, ◌≡◌, ◌≢◌, refl, sym, ap, ◌∙◌, ◌⊎◌, inl, inr, Bool, true, false,
  ◌==◌, not, ◌&&◌, ==-cases, ==_self, nonzero, Bool-cases, update, [], ◌∷◌, Option, none, some,
  List, arith,
}
use biscuit_os_memory.Params.{
  skip_spaces, Scan, equals_after, quote_after, scan_arg, Arg, cut_quote, split_arg, end_arg,
  next_arg, Setter, Param,
}

-- A byte that is not the zero at the end stands before it.
before_end : (at end : ℕ) (mem : ℕ → ℕ) → mem at ≢ 0 → mem end ≡ 0 → at ≤ end → at < end
before_end at end mem byte stop le = elim (==-cases at end) [
  | inl (_, e) ↦ absurd (byte (ap mem e ∙ stop))
  | inr (_, differ) ↦ omega arith
]

further : (args end : ℕ) (mem : ℕ → ℕ) → mem args ≡ 32 → mem end ≡ 0 → args ≤ end → args + 1 ≤ end
further args end mem space stop le =
    omega (arith, before_end args end mem (λ e. absurd (omega (arith, e, space))) stop le)

further_at :
    (args i end : ℕ) (mem : ℕ → ℕ)
    → mem (args + i) ≢ 0
    → mem end ≡ 0
    → args + i ≤ end
    → args + (i + 1) ≤ end
further_at args i end mem byte stop le = omega (arith, before_end (args + i) end mem byte stop le)

-- The spaces end at a byte that is none, at the end of the string at the latest.
skip_spaces-bounds :
    (rounds end args : ℕ) (mem : ℕ → ℕ)
    → mem end ≡ 0
    → args ≤ end
    → end < args + rounds
    → (args ≤ skip_spaces rounds mem args)
      × (skip_spaces rounds mem args ≤ end)
      × ((mem args ≢ 32) → skip_spaces rounds mem args ≡ args)
      × (mem args ≡ 32 → args < skip_spaces rounds mem args)
unfolding skip_spaces
skip_spaces-bounds zero end args mem stop le enough = absurd (omega arith)
skip_spaces-bounds (suc rounds) end args mem stop le enough = elim (==-cases (mem args) 32) [
  | inl (e, space) ↦
      let ih =
        skip_spaces-bounds rounds end (args + 1) mem stop (further args end mem space stop le)
          (omega (arith, enough)) in
      rw e (omega (arith, ih.0), ih.1, (λ other. absurd (other space)), λ _. omega (arith, ih.0))
  | inr (e, other) ↦ rw e (omega arith, le, (λ _. refl), λ space. absurd (other space))
]

-- What the scan of an argument finds.
record Scanned (mem : ℕ → ℕ) (args i end : ℕ) (in_quote : Bool) (s : Scan) : Type 0 where
  pub start : i ≤ s.i
  pub bound : args + s.i ≤ end
  pub equals : (s.equals ≡ 0) ⊎ (s.equals < s.i)
  pub progress : mem (args + i) ≢ 0 → (mem (args + i) ≡ 32 → in_quote ≡ true) → i < s.i
  pub stops : (mem (args + s.i) ≡ 0) ⊎ (mem (args + s.i) ≡ 32)

equals_after-bound :
    (mem : ℕ → ℕ) (args i equals : ℕ)
    → (equals ≡ 0) ⊎ (equals < i)
    → (equals_after mem args i equals ≡ 0) ⊎ (equals_after mem args i equals < i + 1)
unfolding equals_after
equals_after-bound mem args i equals before = ground (arith, before)

scan_arg-Scanned :
    (rounds end args i equals : ℕ) (in_quote : Bool) (mem : ℕ → ℕ)
    → mem end ≡ 0
    → args + i ≤ end
    → end < args + i + rounds
    → (equals ≡ 0) ⊎ (equals < i)
    → Scanned mem args i end in_quote (scan_arg rounds mem args i equals in_quote)
unfolding scan_arg
scan_arg-Scanned zero end args i equals in_quote mem stop le enough before = absurd (omega arith)
scan_arg-Scanned (suc rounds) end args i equals in_quote mem stop le enough before =
    elim (==-cases (mem (args + i)) 0) [
      | inl (e, ended) ↦ rw e (record {
        start = omega arith;
        bound = le;
        equals = before;
        progress = λ nonzero _. absurd (nonzero ended);
        stops = inl ended;
      })
      | inr (e, byte) ↦ rw e (elim (Bool-cases ((mem (args + i) == 32) && not in_quote)) [
        | inl t ↦ rw t (record {
          start = omega arith;
          bound = le;
          equals = before;
          progress = λ _ quoted. absurd (ground (arith, t, quoted));
          stops = inr (ground (arith, t));
        })
        | inr t ↦
            let ih =
              scan_arg-Scanned rounds end args (i + 1) (equals_after mem args i equals)
                (quote_after mem args i in_quote) mem stop (further_at args i end mem byte stop le)
                (omega (arith, enough)) (equals_after-bound mem args i equals before) in
            rw t (record {
              start = omega (arith, ih.start);
              bound = ih.bound;
              equals = ih.equals;
              progress = λ _ _. omega (arith, ih.start);
              stops = ih.stops;
            })
      ])
    ]

-- A memory that differs from another one from `lo` up to `end` only.
abbrev pub Within : ℕ → ℕ → (ℕ → ℕ) → (ℕ → ℕ) → Type 0
Within lo end mem mem' = (j : ℕ) → (j < lo) ⊎ (end ≤ j) → mem' j ≡ mem j

Within-update :
    (lo end at : ℕ) (mem mem' : ℕ → ℕ)
    → lo ≤ at
    → at < end
    → Within lo end mem mem'
    → Within lo end mem (update mem' at 0)
Within-update lo end at mem mem' from to same j out = elim (==-cases at j) [
  | inl (_, e) ↦ absurd (elim out [ inl lt ↦ omega arith | inr le ↦ omega arith ])
  | inr (e, _) ↦ rw e (same j out)
]

Within-cut_quote :
    (wanted : Bool) (lo end at : ℕ) (mem mem' : ℕ → ℕ)
    → lo < at
    → at ≤ end
    → Within lo end mem mem'
    → Within lo end mem (cut_quote wanted at mem')
unfolding cut_quote
Within-cut_quote wanted lo end at mem mem' from to same =
    elim (Bool-cases (wanted && (mem' (at - 1) == 34))) [
      | inl e ↦ rw e (Within-update lo end (at - 1) mem mem' (omega arith) (omega arith) same)
      | inr e ↦ rw e same
    ]

Within-split_arg :
    (lo end args : ℕ) (mem : ℕ → ℕ) (quoted : Bool) (s : Scan)
    → lo ≤ args
    → args + s.i ≤ end
    → (s.equals ≡ 0) ⊎ (s.equals < s.i)
    → Within lo end mem ((split_arg mem args quoted s).0)
unfolding split_arg
Within-split_arg lo end args mem quoted s from to equals = elim (==-cases s.equals 0) [
  | inl (e, _) ↦ rw e (λ j out. refl)
  | inr (e, found) ↦ rw e (elim equals [
    | inl none_found ↦ absurd (found none_found)
    | inr lt ↦ Within-cut_quote quoted lo end (args + s.i) mem _ (omega arith) to (
        Within-cut_quote _ lo end (args + s.i) mem _ (omega arith) to (
          Within-update lo end (args + s.equals) mem mem (omega arith) (omega arith)
            (λ j out. refl)))
  ])
]

-- A value starts behind the first byte, and not behind the end.
abbrev pub ValueIn : ℕ → Option ℕ → Type 0
ValueIn end none = Unit
ValueIn end (some v) = (0 < v) × (v ≤ end)

ValueIn-mono : (lo hi : ℕ) (val : Option ℕ) → lo ≤ hi → ValueIn lo val → ValueIn hi val
ValueIn-mono lo hi none le h = tt
ValueIn-mono lo hi (some v) le h = (h.0, omega (arith, h.1, le))

ValueIn-split_arg :
    (args : ℕ) (mem : ℕ → ℕ) (quoted : Bool) (s : Scan)
    → (s.equals ≡ 0) ⊎ (s.equals < s.i)
    → (mem (args + s.i) ≡ 0) ⊎ (mem (args + s.i) ≡ 32)
    → ValueIn (args + s.i) ((split_arg mem args quoted s).1)
unfolding split_arg
ValueIn-split_arg args mem quoted s equals stops = elim (==-cases s.equals 0) [
  | inl (e, _) ↦ rw e tt
  | inr (e, found) ↦ rw e (elim equals [
    | inl none_found ↦ absurd (found none_found)
    | inr lt ↦ elim (==-cases (update mem (args + s.equals) 0 (args + s.equals + 1)) 34) [
      | inl (t, quote) ↦ rw t (elim (==-cases (s.equals + 1) s.i) [
        | inl (_, at_end) ↦
            let same : args + s.equals + 1 ≡ args + s.i = omega (arith, at_end) in
            absurd (ground (arith, rw same at quote, stops, lt))
        | inr (_, differ) ↦ (omega arith, omega (arith, lt, differ))
      ])
      | inr (t, _) ↦ rw t (omega arith, omega (arith, lt))
    ]
  ])
]

-- What `next_arg_bs` does to a string that ends at `end`: it gets further, not past the end, and writes
-- between the start and the end only.
pub record Token (lo end : ℕ) (mem : ℕ → ℕ) (a : Arg) : Type 0 where
  pub progress : lo < a.next
  pub bound : a.next ≤ end
  pub param_start : lo ≤ a.param
  pub param_end : a.param ≤ end
  pub value : ValueIn end a.val
  -- The next argument starts where the string ends, or behind a space, which is cut off.
  pub rest : (mem a.next ≡ 0) ⊎ ((mem (a.next - 1) ≡ 32) × (a.mem (a.next - 1) ≡ 0))
  pub inside : Within lo end mem a.mem

end_arg-Token :
    (lo end args : ℕ) (mem : ℕ → ℕ) (s : Scan) (r : (ℕ → ℕ) × Option ℕ)
    → mem end ≡ 0
    → lo ≤ args
    → args + s.i ≤ end
    → lo < args + s.i
    → (mem (args + s.i) ≡ 0) ⊎ (mem (args + s.i) ≡ 32)
    → ValueIn (args + s.i) (r.1)
    → Within lo (args + s.i) mem (r.0)
    → Token lo end mem (end_arg args s r)
unfolding end_arg
end_arg-Token lo end args mem s r stop from to further stops value before = elim stops [
  | inl ended ↦
      let e : nonzero ((r.0) (args + s.i)) ≡ false = rw (same, ended) refl in
      rw e (record {
        progress = further;
        bound = to;
        param_start = from;
        param_end = omega arith;
        value = ValueIn-mono (args + s.i) end (r.1) to value;
        rest = inl ended;
        inside = inside;
      })
  | inr space ↦
      let e : nonzero ((r.0) (args + s.i)) ≡ true = rw (same, space) refl in
      let lt = before_end (args + s.i) end mem (λ z. absurd (omega (arith, z, space))) stop to in
      let back : args + s.i + 1 - 1 ≡ args + s.i = omega arith in
      rw e (record {
        progress = omega arith;
        bound = omega (arith, lt);
        param_start = from;
        param_end = omega arith;
        value = ValueIn-mono (args + s.i) end (r.1) to value;
        rest = inr (rw back (space, rw (==_self (args + s.i)) refl));
        inside = Within-update lo end (args + s.i) mem (r.0) (omega arith) lt inside;
      })
]
  where
    same : (r.0) (args + s.i) ≡ mem (args + s.i)
    same = before (args + s.i) (inr (omega arith))

    inside : Within lo end mem (r.0)
    inside j out = before j (elim out [ inl lt ↦ inl lt | inr le ↦ inr (omega arith) ])

-- For a string that has not ended, of which end is a zero byte, with more rounds than there are
-- bytes up to it: reading an argument gets further, not past the end, to a zero or to just behind
-- a space that it has turned into a zero; the argument starts in the string, its value, if it has
-- one, is not behind the end, and no byte before the start and none from the end on is written.
pub next_arg-Token :
    (rounds end args : ℕ) (mem : ℕ → ℕ)
    → mem end ≡ 0
    → args ≤ end
    → mem args ≢ 0
    → end < args + rounds
    → Token args end mem (next_arg rounds mem args)
unfolding next_arg
next_arg-Token rounds end args mem stop le byte enough = elim (==-cases (mem start) 34) [
  | inl (e, quote) ↦
      let before =
        before_end start end mem (λ z. absurd (omega (arith, z, quote))) stop (spaces.1) in
      let s =
        scan_arg-Scanned rounds end (start + 1) 0 0 true mem stop (omega (arith, before))
          (omega (arith, enough, spaces.0)) (inl refl) in
      rw e (
        end_arg-Token args end (start + 1) mem _ _ stop (omega (arith, spaces.0)) s.bound
          (omega (arith, spaces.0)) s.stops
          (ValueIn-split_arg (start + 1) mem true _ s.equals s.stops)
          (Within-split_arg args _ (start + 1) mem true _ (omega (arith, spaces.0)) (omega arith)
            s.equals))
  | inr (e, _) ↦
      let s =
        scan_arg-Scanned rounds end start 0 0 false mem stop (omega (arith, spaces.1))
          (omega (arith, enough, spaces.0)) (inl refl) in
      rw e (
        end_arg-Token args end start mem _ _ stop (spaces.0) s.bound
          (elim (==-cases (mem args) 32) [
            | inl (_, space) ↦ omega (arith, spaces.3 space)
            | inr (_, other) ↦ omega (
              arith,
              spaces.2 other,
              s.progress (λ z. byte (ap mem (sym (spaces.2 other) ∙ omega arith) ∙ z))
                  (λ z. absurd (other (ap mem (sym (spaces.2 other) ∙ omega arith) ∙ z))),
            )
          ])
          s.stops (ValueIn-split_arg start mem false _ s.equals s.stops)
          (Within-split_arg args _ start mem false _ (spaces.0) (omega arith) s.equals))
]
  where
    start : ℕ
    start = skip_spaces rounds mem args

    spaces :
        (args ≤ start)
        × (start ≤ end)
        × ((mem args ≢ 32) → start ≡ args)
        × (mem args ≡ 32 → args < start)
    spaces = skip_spaces-bounds rounds end args mem stop le enough

-- A parameter that is given a value in the string leaves the zero at its end.
abbrev pub Leaves {ℓ} : {S : Type ℓ} → ℕ → Setter S → Type ℓ
Leaves {S} end set =
    (val : Option ℕ) (mem : ℕ → ℕ) (s : S) → ValueIn end val → ((set val mem s).1).0 end ≡ mem end

abbrev pub EachLeaves {ℓ} : {S : Type ℓ} → ℕ → List (Param S) → Type ℓ
EachLeaves end [] = Unit
EachLeaves end (p ∷ params) = Leaves end (p.1) × EachLeaves end params

abbrev pub UnknownLeaves {ℓ} : {S : Type ℓ} → ℕ → Option (ℕ → Setter S) → Type ℓ
UnknownLeaves end none = Unit
UnknownLeaves end (some handle) = (param : ℕ) → param ≤ end → Leaves end (handle param)
