-- ===== src/Codec/Parse/Split.antt =====
-- Splitting at a byte and into lines: what the pieces hold, and that joining gives the text back.
use contract_conformance_tes.Base.{
  ℕ, ◌≡◌, ◌≢◌, inl, inr, refl, sym, ap, Bool-cases, ◌==◌, ==_iff, List, [], ◌∷◌, ◌++◌, All, Text,
  arith,
}
use contract_conformance_tes.Codec.Parse.{push_byte, split, strip_cr, ended, lines}

-- The text does not hold the byte.
abbrev pub Lacks : ℕ → Text → Type 0
Lacks sep s = All (λ b. b ≢ sep) s

abbrev pub join : ℕ → List Text → Text
join sep [] = []
join sep (piece ∷ []) = piece
join sep (piece ∷ (next ∷ pieces)) = piece ++ (sep ∷ join sep (next ∷ pieces))

join-push_byte :
    (sep b : ℕ) (pieces : List Text) → join sep (push_byte b pieces) ≡ b ∷ join sep pieces
unfolding push_byte
join-push_byte sep b [] = refl
join-push_byte sep b (piece ∷ []) = refl
join-push_byte sep b (piece ∷ (next ∷ pieces)) = refl

-- There is always a piece.
pub data IsCons : List Text → Type 0 where
  cons : (piece : Text) (pieces : List Text) → IsCons (piece ∷ pieces)

push_byte-IsCons : (b : ℕ) (pieces : List Text) → IsCons (push_byte b pieces)
unfolding push_byte
push_byte-IsCons b [] = cons _ _
push_byte-IsCons b (piece ∷ pieces) = cons _ _

pub split-IsCons : (sep : ℕ) (s : Text) → IsCons (split sep s)
unfolding split
split-IsCons sep [] = cons _ _
split-IsCons sep (b ∷ s) = elim (Bool-cases (b == sep)) [
  | inl same ↦ rw same (cons _ _)
  | inr other ↦ rw other (push_byte-IsCons b (split sep s))
]

join-cons_nil :
    (sep : ℕ) (pieces : List Text) → IsCons pieces → join sep ([] ∷ pieces) ≡ sep ∷ join sep pieces
join-cons_nil sep _ (cons piece pieces) = refl

-- Joining the pieces gives the text back.
pub join-split : (sep : ℕ) (s : Text) → join sep (split sep s) ≡ s
unfolding split
join-split sep [] = refl
join-split sep (b ∷ s) = elim (Bool-cases (b == sep)) [
  | inl same ↦ rw same (
      rw (join-cons_nil sep (split sep s) (split-IsCons sep s), join-split sep s)
        (ap (λ c. c ∷ s) (sym ((==_iff b sep).0 same))))
  | inr other ↦ rw (other, join-push_byte, join-split sep s)
]

module _ (P : ℕ → Type 0) where
  push_byte-All :
      (b : ℕ) (pieces : List Text) → P b → All (All P) pieces → All (All P) (push_byte b pieces)
  unfolding push_byte
  push_byte-All b [] p h = ((p, tt), tt)
  push_byte-All b (piece ∷ pieces) p (h, hs) = ((p, h), hs)

  -- What holds of every byte of the text holds of every byte of the pieces.
  pub split-All : (sep : ℕ) (s : Text) → All P s → All (All P) (split sep s)
  unfolding split
  split-All sep [] h = (tt, tt)
  split-All sep (b ∷ s) (p, h) = elim (Bool-cases (b == sep)) [
    | inl same ↦ rw same (tt, split-All sep s h)
    | inr other ↦ rw other (push_byte-All b (split sep s) p (split-All sep s h))
  ]

  strip_cr-All : (s : Text) → All P s → All P (strip_cr s)
  unfolding strip_cr
  strip_cr-All [] h = tt
  strip_cr-All (b ∷ []) h = ground arith
  strip_cr-All (b ∷ (c ∷ s)) (p, h) = (p, strip_cr-All (c ∷ s) h)

  ended-All : (pieces : List Text) → All (All P) pieces → All (All P) (ended pieces)
  unfolding ended
  ended-All [] h = tt
  ended-All ([] ∷ []) h = tt
  ended-All ((b ∷ s) ∷ []) h = h
  ended-All (piece ∷ (next ∷ pieces)) (h, hs) = (strip_cr-All piece h, ended-All (next ∷ pieces) hs)

push_byte-Lacks :
    (sep b : ℕ) (pieces : List Text)
    → b ≢ sep
    → All (Lacks sep) pieces
    → All (Lacks sep) (push_byte b pieces)
push_byte-Lacks sep b pieces n h = push_byte-All (λ c. c ≢ sep) b pieces n h

-- No piece holds the separator.
pub split-Lacks : (sep : ℕ) (s : Text) → All (Lacks sep) (split sep s)
unfolding split
split-Lacks sep [] = (tt, tt)
split-Lacks sep (b ∷ s) = elim (Bool-cases (b == sep)) [
  | inl same ↦ rw same (tt, split-Lacks sep s)
  | inr other ↦
      rw other (
        push_byte-Lacks sep b (split sep s) (λ e. ground (arith, ==_iff b sep)) (split-Lacks sep s))
]

-- No line holds a line feed.
pub lines-Lacks : (source : Text) → All (Lacks b'\n') (lines source)
unfolding lines
lines-Lacks source = ended-All (λ b. b ≢ b'\n') (split b'\n' source) (split-Lacks b'\n' source)

-- A text without the separator is one piece, and the first piece of what it begins.
pub split_of_Lacks : (sep : ℕ) (s : Text) → Lacks sep s → split sep s ≡ s ∷ []
unfolding split push_byte
split_of_Lacks sep [] h = refl
split_of_Lacks sep (b ∷ s) (n, h) = ground (arith, split_of_Lacks sep s h)

pub split-append :
    (sep : ℕ) (s t : Text) → Lacks sep s → split sep (s ++ (sep ∷ t)) ≡ s ∷ split sep t
unfolding split push_byte
split-append sep [] t h = ground arith
split-append sep (b ∷ s) t (n, h) = ground (arith, split-append sep s t h)

-- The text does not end in a carriage return.
abbrev pub EndsClean : Text → Type 0
EndsClean [] = Unit
EndsClean (b ∷ []) = b ≢ b'\r'
EndsClean (b ∷ (c ∷ s)) = EndsClean (c ∷ s)

pub strip_cr_of_EndsClean : (s : Text) → EndsClean s → strip_cr s ≡ s
unfolding strip_cr
strip_cr_of_EndsClean [] h = refl
strip_cr_of_EndsClean (b ∷ []) h = ground arith
strip_cr_of_EndsClean (b ∷ (c ∷ s)) h = ap (λ t. b ∷ t) (strip_cr_of_EndsClean (c ∷ s) h)

pub EndsClean-append : (s : Text) (c : ℕ) (t : Text) → EndsClean (c ∷ t) → EndsClean (s ++ (c ∷ t))
EndsClean-append [] c t h = h
EndsClean-append (b ∷ []) c t h = h
EndsClean-append (b ∷ (d ∷ s)) c t h = EndsClean-append (d ∷ s) c t h

ended-cons :
    (piece : Text) (pieces : List Text)
    → IsCons pieces
    → ended (piece ∷ pieces) ≡ strip_cr piece ∷ ended pieces
unfolding ended
ended-cons piece _ (cons next pieces) = refl

-- The first line of a text, and the lines behind it.
pub lines-append :
    (s t : Text) → Lacks b'\n' s → EndsClean s → lines (s ++ (b'\n' ∷ t)) ≡ s ∷ lines t
unfolding lines
lines-append s t h clean =
    rw (split-append b'\n' s t h, ended-cons s (split b'\n' t) (split-IsCons b'\n' t))
      (ap (λ l. l ∷ ended (split b'\n' t)) (strip_cr_of_EndsClean s clean))

pub lines-nil : lines [] ≡ []
unfolding lines
lines-nil = refl
