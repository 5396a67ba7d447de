-- ===== src/Ingest/Retry.antt =====
-- What a refused batch leaves behind.
use evald.Prelude.{
  ℕ, ◌≡◌, refl, ap, ◌∙◌, Option, none, some, List, [], ◌∷◌, ◌++◌, Text, length, nat_beq, arith,
  Bool-cases, inl, inr,
}
use evald.Prelude.Io.{ErrorKind}
use evald.Model.{NormalizedSpan}
use evald.Writer.{StoreError, Cmd, append}
use evald.Calls.{
  CallLedger, may_carry_keys, filter, remember, retain_each, named, new_keys, is_copy, Filtered,
}
use evald.Ingest.{
  Sent, outcome_of, Ingest, reject_if_disk_full, sent_after, append_batch, with_calls, filtered,
  finished, admitted, ingest_batch,
}

-- The keys that a batch was filtered by.
abbrev Same : Ingest → Ingest → Type 0
Same st st' = st'.calls.set ≡ st.calls.set

reject-Same : (st : Ingest) (spans : ℕ) → Same st (reject_if_disk_full st spans).1
unfolding reject_if_disk_full
reject-Same st spans = elim (Bool-cases (nat_beq spans 0)) [
  | inl e ↦ rw e refl
  | inr e ↦ elim (Bool-cases st.disk_blocked) [ inl f ↦ rw (e, f) refl | inr f ↦ rw (e, f) refl ]
]

sent_after-Same :
    (r : Option StoreError × Ingest) (cmd : Cmd) (sent : Sent) → Same r.1 (sent_after r cmd sent).1
sent_after-Same (some e, st) cmd sent = refl
sent_after-Same (none, st) cmd sent = refl

append_batch-Same :
    (st : Ingest) (spans : List NormalizedSpan) (sent : Sent)
    → Same st (append_batch st spans sent).1
unfolding append_batch
append_batch-Same st [] sent = refl
append_batch-Same st (s ∷ rest) sent =
    sent_after-Same (reject_if_disk_full st (length (s ∷ rest))) (append (s ∷ rest)) sent
    ∙ reject-Same st (length (s ∷ rest))

-- An append that reaches the writer reports what the writer does.
sent_after-refused :
    (r : Option StoreError × Ingest) (cmd : Cmd) (sent : Sent) (e : StoreError)
    → outcome_of sent ≡ some e
    → (f : StoreError) × ((sent_after r cmd sent).0 ≡ some f)
sent_after-refused (some f, st) cmd sent e h = (f, refl)
sent_after-refused (none, st) cmd sent e h = (e, h)

append_batch-refused :
    (st : Ingest) (s : NormalizedSpan) (rest : List NormalizedSpan) (sent : Sent) (e : StoreError)
    → outcome_of sent ≡ some e
    → (f : StoreError) × ((append_batch st (s ∷ rest) sent).0 ≡ some f)
unfolding append_batch
append_batch-refused st s rest sent e h =
    sent_after-refused (reject_if_disk_full st (length (s ∷ rest))) (append (s ∷ rest)) sent e h

finished-Same :
    (count : ℕ) (keys : List Text) (scores : Option ErrorKind) (r : Option StoreError × Ingest)
    (f : StoreError)
    → r.0 ≡ some f
    → Same r.1 (finished count keys scores r).1
finished-Same count keys scores (some e, st) f h = refl
finished-Same count keys scores (none, st) f h = absurd (ground arith)

-- A batch that retains no span has no keys.
abbrev NoKeys : Filtered → Type 0
NoKeys f = f.kept ≡ [] → f.keys ≡ []

keys-retain_each :
    (recent in_batch : List Text) (spans : List NormalizedSpan)
    → NoKeys (retain_each recent in_batch spans)
unfolding retain_each
keys-retain_each recent in_batch [] = λ h. refl
keys-retain_each recent in_batch (s ∷ rest) =
    let keys = new_keys recent in_batch (named s) in
    let later = retain_each recent (keys ++ in_batch) rest in
    elim (Bool-cases (is_copy recent in_batch (named s))) [
      | inl copy ↦ rw copy (keys-retain_each recent (keys ++ in_batch) rest)
      | inr new ↦ rw new (λ h. absurd (ground arith))
    ]

finished_empty-Same :
    (scores : Option ErrorKind) (count : ℕ) (keys : List Text) (st : Ingest)
    → keys ≡ []
    → Same st (finished count keys scores (none, st)).1
unfolding remember
finished_empty-Same (some kind) count keys st h = rw h refl
finished_empty-Same none count keys st h = rw h refl

prepared-Same :
    (count : ℕ) (keys : List Text) (scores : Option ErrorKind) (left prepared : List NormalizedSpan)
    (st : Ingest) (sent : Sent) (e : StoreError)
    → outcome_of sent ≡ some e
    → length prepared ≡ length left
    → (left ≡ [] → keys ≡ [])
    → Same st (finished count keys scores (append_batch st prepared sent)).1
prepared-Same count keys scores [] [] st sent e h sized empty =
    unfold append_batch in finished_empty-Same scores count keys st (empty refl)
prepared-Same count keys scores [] (p ∷ prepared) st sent e h sized empty =
    absurd (omega (arith, sized))
prepared-Same count keys scores (s ∷ left) [] st sent e h sized empty =
    absurd (omega (arith, sized))
prepared-Same count keys scores (s ∷ left) (p ∷ prepared) st sent e h sized empty =
    let (f, failed) = append_batch-refused st p prepared sent e h in
    finished-Same count keys scores (append_batch st (p ∷ prepared) sent) f failed
    ∙ append_batch-Same st (p ∷ prepared) sent

admitted-Same :
    (prepare : List NormalizedSpan → List NormalizedSpan) (left : List NormalizedSpan)
    (keys : List Text) (scores : Option ErrorKind) (sent : Sent) (e : StoreError)
    (r : Option StoreError × Ingest)
    → ((l : List NormalizedSpan) → length (prepare l) ≡ length l)
    → outcome_of sent ≡ some e
    → (left ≡ [] → keys ≡ [])
    → Same r.1 (admitted prepare left keys scores sent r).1
admitted-Same prepare left keys scores sent e (some f, st) slices h empty = refl
admitted-Same prepare left keys scores sent e (none, st) slices h empty =
    prepared-Same (length left) keys scores left (prepare left) st sent e h (slices left) empty

keys-filtered :
    (st : Ingest) (spans : List NormalizedSpan)
    → (filtered st spans).0 ≡ []
    → (filtered st spans).1 ≡ []
unfolding filter
keys-filtered st spans = elim (Bool-cases (may_carry_keys spans)) [
  | inl e ↦ rw e (keys-retain_each st.calls.set [] spans)
  | inr e ↦ rw e (λ h. refl)
]

set-filtered :
    (st : Ingest) (spans : List NormalizedSpan) → (filtered st spans).2.set ≡ st.calls.set
unfolding filter
set-filtered st spans = elim (Bool-cases (may_carry_keys spans)) [
  | inl e ↦ rw e refl
  | inr e ↦ rw e refl
]

filter_by_set :
    (a b : CallLedger) (spans : List NormalizedSpan)
    → a.set ≡ b.set
    → (filter a spans).0 ≡ (filter b spans).0
unfolding filter
filter_by_set a b spans h = ap (λ (s : List Text). (retain_each s [] spans).kept) h

-- A batch that the store did not take is never mistaken for a duplicate: if its command is refused
-- by the channel or answered with an error, a retry of it is filtered as the first try was. The
-- preparation changes spans in place, so it keeps their number.
pub ingest_batch-retry :
    (prepare : List NormalizedSpan → List NormalizedSpan) (st : Ingest)
    (spans : List NormalizedSpan) (scores : Option ErrorKind) (sent : Sent) (e : StoreError)
    → ((l : List NormalizedSpan) → length (prepare l) ≡ length l)
    → outcome_of sent ≡ some e
    → (filter (ingest_batch prepare st spans scores sent).1.calls spans).0
      ≡ (filter st.calls spans).0
unfolding ingest_batch
ingest_batch-retry prepare st spans scores sent e slices h =
    let left = (filtered st spans).0 in
    let start = with_calls st (filtered st spans).2 in
    filter_by_set (ingest_batch prepare st spans scores sent).1.calls st.calls spans (
      admitted-Same prepare left (filtered st spans).1 scores sent e
        (reject_if_disk_full start (length left)) slices h (keys-filtered st spans)
      ∙ reject-Same start (length left)
      ∙ set-filtered st spans)
