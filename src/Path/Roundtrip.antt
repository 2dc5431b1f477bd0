-- ===== src/Path/Roundtrip.antt =====
-- About path_to_execution_id of the path that execution_id_to_path writes.
use glyff.Prelude.{
  false, Option, none, some, List, [], ◌∷◌, ◌++◌, Text, ◌≡◌, ◌≢◌, refl, arith, ap, inl, inr,
}
use mathlib.Core.List.{reverse, reverse-cons}
use glyff.Types.{ExecutionId, Frame, top, child, execution_id}
use glyff.Types.Checks.{is_empty}
use glyff.Result.{ok, ◌>>=◌, Result-cases}
use glyff.Text.Split.{join, split}
use glyff.Text.Split.Laws.{Free, AllFree, split-join}
use glyff.Path.{
  format_frame, parse_frame_components, frames_up, execution_id_to_path, rebuild,
  path_to_execution_id,
}
use glyff.Path.Frames.{IsFrame, parse-format_frame, format_frame-Free, format_frame-not_empty}

-- Every frame of the chain is one that the constructors accept.
abbrev pub IsWellFormed : ExecutionId → Type 0
IsWellFormed (top f) = IsFrame f
IsWellFormed (child p f) = IsWellFormed p × IsFrame f

pub rebuild-append :
    (parent : Option ExecutionId) (xs ys : List Text)
    → rebuild parent (xs ++ ys) ≡ (rebuild parent xs >>= λ p. rebuild p ys)
unfolding rebuild
rebuild-append parent [] ys = refl
rebuild-append parent (x ∷ xs) ys = elim (Result-cases (parse_frame_components x)) [
  | inl (f, e) ↦ rw e (rebuild-append (some (execution_id parent f)) xs ys)
  | inr (y, e) ↦ rw e refl
]

frames_up-top :
    (f : Frame) (ws : List Text)
    → frames_up (top f) ≡ ok ws
    → (w : Text) × (format_frame f ≡ ok w) × (ws ≡ w ∷ [])
unfolding frames_up
frames_up-top f ws h = elim (Result-cases (format_frame f)) [
  | inl (w, p) ↦ (w, p, ground arith)
  | inr (x, p) ↦ absurd (ground arith)
]

frames_up-child :
    (e : ExecutionId) (f : Frame) (ws : List Text)
    → frames_up (child e f) ≡ ok ws
    → (w : Text) × (us : List Text) × (format_frame f ≡ ok w)
      × (frames_up e ≡ ok us)
      × (ws ≡ w ∷ us)
unfolding frames_up
frames_up-child e f ws h = elim (Result-cases (format_frame f)) [
  | inl (w, p) ↦ elim (Result-cases (frames_up e)) [
    | inl (us, q) ↦ (w, us, p, q, ground arith)
    | inr (x, q) ↦ absurd (ground arith)
  ]
  | inr (x, p) ↦ absurd (ground arith)
]

rebuild-frames_up :
    (e : ExecutionId) (ws : List Text)
    → IsWellFormed e
    → frames_up e ≡ ok ws
    → rebuild none (reverse ws) ≡ ok (some e)
unfolding rebuild
rebuild-frames_up (top f) ws v h =
    let (w, p, e) = frames_up-top f ws h in rw e (rw (parse-format_frame f w v p) refl)
rebuild-frames_up (child e f) ws v h =
    let (w, us, p, q, r) = frames_up-child e f ws h in
    rw r (
      rw (reverse-cons w us) (
        rw (rebuild-append none (reverse us) (w ∷ []))
          (rw (rebuild-frames_up e us v.0 q) (rw (parse-format_frame f w v.1 p) refl))))

-- The words of a path: no slash in them, and none empty.
abbrev pub AreWords : List Text → Type 0
AreWords [] = Unit
AreWords (w ∷ ws) = Free b'/' w × (is_empty w ≡ false) × AreWords ws

AreWords-append : (xs ys : List Text) → AreWords xs → AreWords ys → AreWords (xs ++ ys)
AreWords-append [] ys a b = b
AreWords-append (x ∷ xs) ys a b = (a.0, a.1, AreWords-append xs ys a.2 b)

AreWords-reverse : (ws : List Text) → AreWords ws → AreWords (reverse ws)
AreWords-reverse [] a = tt
AreWords-reverse (w ∷ ws) a =
    rw (reverse-cons w ws)
      (AreWords-append (reverse ws) (w ∷ []) (AreWords-reverse ws a.2) (a.0, a.1, tt))

AreWords-frames_up : (e : ExecutionId) (ws : List Text) → frames_up e ≡ ok ws → AreWords ws
AreWords-frames_up (top f) ws h =
    let (w, p, e) = frames_up-top f ws h in
    rw e (format_frame-Free f w p, format_frame-not_empty f w p, tt)
AreWords-frames_up (child e f) ws h =
    let (w, us, p, q, r) = frames_up-child e f ws h in
    rw r (format_frame-Free f w p, format_frame-not_empty f w p, AreWords-frames_up e us q)

AllFree-words : (ws : List Text) → AreWords ws → AllFree b'/' ws
AllFree-words [] a = tt
AllFree-words (w ∷ ws) a = (a.0, AllFree-words ws a.2)

-- the text of a path that has words is not empty, and is cut back into them
split-words : (ws : List Text) → ws ≢ [] → AreWords ws → split b'/' (join b'/' ws) ≡ ws
split-words [] n a = absurd (n refl)
split-words (w ∷ ws) n a = split-join b'/' w ws a.0 (AllFree-words ws a.2)

join-not_empty : (ws : List Text) → ws ≢ [] → AreWords ws → is_empty (join b'/' ws) ≡ false
unfolding join
join-not_empty [] n a = absurd (n refl)
join-not_empty (w ∷ []) n a = a.1
join-not_empty ([] ∷ v ∷ ws) n a = absurd (ground arith)
join-not_empty ((c ∷ cs) ∷ v ∷ ws) n a = refl

reverse-frames_up-ne :
    (e : ExecutionId) (ws : List Text) → IsWellFormed e → frames_up e ≡ ok ws → reverse ws ≢ []
unfolding rebuild
reverse-frames_up-ne e ws v h q = cc (rebuild-frames_up e ws v h, ap (rebuild none) q)

-- Where every frame of an id is one that the constructors accept, and the id is written as a
-- path, reading the path gives the id.
pub path-execution_id_to_path :
    (e : ExecutionId) (path : Text)
    → IsWellFormed e
    → execution_id_to_path e ≡ ok path
    → path_to_execution_id path ≡ ok e
unfolding execution_id_to_path path_to_execution_id
path-execution_id_to_path e path v h = elim (Result-cases (frames_up e)) [
  | inl (ws, q) ↦
      let words = AreWords-reverse ws (AreWords-frames_up e ws q) in
      let some_words = reverse-frames_up-ne e ws v q in
      let written : path ≡ join b'/' (reverse ws) = ground (arith, h, q) in
      rw written (
        rw (join-not_empty (reverse ws) some_words words)
          (rw (split-words (reverse ws) some_words words) (rw (rebuild-frames_up e ws v q) refl)))
  | inr (x, q) ↦ absurd (ground arith)
]
