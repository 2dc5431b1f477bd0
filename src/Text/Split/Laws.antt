-- ===== src/Text/Split/Laws.antt =====
-- About partition, split and join.
use glyff.Prelude.{
  ℕ, Bool, true, false, List, [], ◌∷◌, ◌++◌, nat_beq, Text, ◌≡◌, refl, arith, nat_beq_iff, not, ap,
  ◌∙◌, Bool-cases, inl, inr,
}
use glyff.Text.Quote.Laws.{all_of}
use glyff.Text.Split.{partition, split, join, cons_head}

abbrev pub is_not : ℕ → ℕ → Bool
is_not sep c = not (nat_beq c sep)

-- what no separator stands in
abbrev pub Free : ℕ → Text → Type 0
Free sep cs = all_of (is_not sep) cs ≡ true

pub partition-Free :
    (sep : ℕ) (head tail : Text)
    → Free sep head
    → partition sep (head ++ sep ∷ tail) ≡ (head, true, tail)
unfolding partition
partition-Free sep [] tail h = ground (arith, nat_beq_iff sep sep)
partition-Free sep (c ∷ cs) tail h = ground (arith, partition-Free sep cs tail)

split-Free : (sep : ℕ) (cs : Text) → Free sep cs → split sep cs ≡ cs ∷ []
unfolding split
split-Free sep [] h = refl
split-Free sep (c ∷ cs) h = ground (arith, split-Free sep cs)

split-append :
    (sep : ℕ) (cs ds : Text) → Free sep cs → split sep (cs ++ sep ∷ ds) ≡ cs ∷ split sep ds
unfolding split
split-append sep [] ds h = ground (arith, nat_beq_iff sep sep)
split-append sep (c ∷ cs) ds h = ground (arith, split-append sep cs ds)

abbrev pub AllFree : ℕ → List Text → Type 0
AllFree sep [] = Unit
AllFree sep (w ∷ ws) = Free sep w × AllFree sep ws

pub split-join :
    (sep : ℕ) (w : Text) (ws : List Text)
    → Free sep w
    → AllFree sep ws
    → split sep (join sep (w ∷ ws)) ≡ w ∷ ws
unfolding join
split-join sep w [] h a = split-Free sep w h
split-join sep w (v ∷ ws) h a =
    rw (split-append sep w (join sep (v ∷ ws)) h) (ap (◌∷◌ w) (split-join sep v ws a.0 a.1))

-- The parts put together again are the text.
pub partition-eq :
    (sep : ℕ) (cs : Text)
    → (partition sep cs).1 ≡ true
    → (partition sep cs).0 ++ sep ∷ (partition sep cs).2 ≡ cs
unfolding partition
partition-eq sep [] h = absurd (ground arith)
partition-eq sep (c ∷ cs) h = ground (arith, partition-eq sep cs, nat_beq_iff c sep)

pub partition_not_found :
    (sep : ℕ) (cs : Text) → (partition sep cs).1 ≡ false → (partition sep cs).2 ≡ []
unfolding partition
partition_not_found sep [] h = refl
partition_not_found sep (c ∷ cs) h = ground (arith, partition_not_found sep cs)

join-cons_head : (sep c : ℕ) (ws : List Text) → join sep (cons_head c ws) ≡ c ∷ join sep ws
unfolding join
join-cons_head sep c [] = refl
join-cons_head sep c (w ∷ []) = refl
join-cons_head sep c (w ∷ v ∷ ws) = refl

split-cons : (sep : ℕ) (cs : Text) → (w : Text) × (ws : List Text) × (split sep cs ≡ w ∷ ws)
unfolding split
split-cons sep [] = ([], [], refl)
split-cons sep (c ∷ cs) = elim (Bool-cases (nat_beq c sep)) [
  | inl e ↦ ([], split sep cs, rw e refl)
  | inr e ↦ let (w, ws, q) = split-cons sep cs in (c ∷ w, ws, rw e (rw q refl))
]

pub join-split : (sep : ℕ) (cs : Text) → join sep (split sep cs) ≡ cs
unfolding join split
join-split sep [] = refl
join-split sep (c ∷ cs) = elim (Bool-cases (nat_beq c sep)) [
  | inl e ↦
      let (w, ws, q) = split-cons sep cs in
      let ih = join-split sep cs in rw e (rw q (ground (arith, nat_beq_iff c sep, ih, q)))
  | inr e ↦ rw e (join-cons_head sep c (split sep cs) ∙ ap (◌∷◌ c) (join-split sep cs))
]
