-- ===== src/Calls/Once.antt =====
-- What a batch keeps of the calls it describes.
use evald.Prelude.{
  ◌+◌, ◌-◌, ◌%◌, ◌^◌, ◌≡◌, refl, ap, ◌∙◌, sym, Bool, true, false, ◌||◌, List, [], ◌∷◌, ◌++◌, Text,
  Bool-cases, inl, inr, text_eq, text_beq_iff, contains, IsDistinct, contains-append, length, keep,
  if◌then◌else◌, arith,
}
use evald.Model.{NormalizedSpan}
use evald.Calls.{
  CallLedger, Named, anchors, calls, unnamed, named, Filtered, retains, drops, new_keys, is_copy,
  retain_each, filter,
}

-- The keys of the droppable copies among some spans.
abbrev called : Named → List Text
called (anchors k) = []
called (calls k) = k ∷ []
called unnamed = []

abbrev pub call_keys : List NormalizedSpan → List Text
call_keys [] = []
call_keys (s ∷ rest) = called (named s) ++ call_keys rest

-- The spans that are no droppable copy.
abbrev stays : Named → Bool
stays (anchors k) = true
stays (calls k) = false
stays unnamed = true

abbrev pub no_copies : List NormalizedSpan → List NormalizedSpan
no_copies = keep (λ s. stays (named s))

record Once (recent in_batch : List Text) (spans : List NormalizedSpan) (f : Filtered)
    : Type 0 where
  distinct : IsDistinct (call_keys f.kept)
  unseen :
      (k : Text)
      → contains (call_keys f.kept) k ≡ true
      → (contains recent k || contains in_batch k) ≡ false
  counts : length f.kept + f.dropped ≡ length spans
  others : no_copies f.kept ≡ no_copies spans

keep_no_copies :
    (s : NormalizedSpan) (l : List NormalizedSpan) (n : Named)
    → named s ≡ n
    → no_copies (s ∷ l) ≡ (if stays n then s ∷ no_copies l else no_copies l)
keep_no_copies s l n e = rw e refl

call_keys_of :
    (s : NormalizedSpan) (l : List NormalizedSpan) (n : Named)
    → named s ≡ n
    → call_keys (s ∷ l) ≡ called n ++ call_keys l
call_keys_of s l n e = rw e refl

call-Once :
    (recent in_batch : List Text) (s : NormalizedSpan) (rest : List NormalizedSpan) (c : Text)
    (later : Filtered) (copy : Bool)
    → (contains recent c || contains in_batch c) ≡ copy
    → named s ≡ calls c
    → Once recent ((if copy then [] else c ∷ []) ++ in_batch) rest later
    → Once recent in_batch
        (s ∷ rest)
        (if copy then drops later else retains s (if copy then [] else c ∷ []) later)
call-Once recent in_batch s rest c later true known e h = record {
  distinct = h.distinct;
  unseen = h.unseen;
  counts = omega (arith, h.counts);
  others = h.others ∙ sym (keep_no_copies s rest (calls c) e);
}
call-Once recent in_batch s rest c later false known e h = record {
  distinct =
      rw (call_keys_of s later.kept (calls c) e)
        (ground (arith, h.unseen c, text_beq_iff c c), h.distinct);
  unseen = λ k m.
      ground (arith, h.unseen k, known, text_beq_iff c k, call_keys_of s later.kept (calls c) e);
  counts = omega (arith, h.counts);
  others =
      keep_no_copies s later.kept (calls c) e ∙ h.others ∙ sym (keep_no_copies s rest (calls c) e);
}

step-Once :
    (recent in_batch : List Text) (s : NormalizedSpan) (rest : List NormalizedSpan) (n : Named)
    (later : Filtered)
    → named s ≡ n
    → Once recent (new_keys recent in_batch n ++ in_batch) rest later
    → Once recent in_batch (s ∷ rest) (
        if is_copy recent in_batch n
        then drops later
        else retains s (new_keys recent in_batch n) later)
step-Once recent in_batch s rest (anchors a) later e h = record {
  distinct = rw (call_keys_of s later.kept (anchors a) e) h.distinct;
  unseen = λ k m. ground (
    arith,
    h.unseen k,
    call_keys_of s later.kept (anchors a) e,
    contains-append (new_keys recent in_batch (anchors a)) in_batch k,
  );
  counts = omega (arith, h.counts);
  others =
      keep_no_copies s later.kept (anchors a) e
      ∙ ap (◌∷◌ s) h.others
      ∙ sym (keep_no_copies s rest (anchors a) e);
}
step-Once recent in_batch s rest unnamed later e h = record {
  distinct = rw (call_keys_of s later.kept unnamed e) h.distinct;
  unseen = λ k m. ground (arith, h.unseen k, call_keys_of s later.kept unnamed e);
  counts = omega (arith, h.counts);
  others =
      keep_no_copies s later.kept unnamed e
      ∙ ap (◌∷◌ s) h.others
      ∙ sym (keep_no_copies s rest unnamed e);
}
step-Once recent in_batch s rest (calls c) later e h =
    call-Once recent in_batch s rest c later (contains recent c || contains in_batch c) refl e h

retain_each-Once :
    (recent in_batch : List Text) (spans : List NormalizedSpan)
    → Once recent in_batch spans (retain_each recent in_batch spans)
unfolding retain_each
retain_each-Once recent in_batch [] = record {
  distinct = tt;
  unseen = λ k m. ground arith;
  counts = refl;
  others = refl;
}
retain_each-Once recent in_batch (s ∷ rest) =
    let batch = new_keys recent in_batch (named s) ++ in_batch in
    step-Once recent in_batch s rest (named s) (retain_each recent batch rest) refl
      (retain_each-Once recent batch rest)

-- The calls that a span describes, as a copy or as their anchor.
abbrev described : Named → List Text
described (anchors k) = k ∷ []
described (calls k) = k ∷ []
described unnamed = []

abbrev pub all_described : List NormalizedSpan → List Text
all_described [] = []
all_described (s ∷ rest) = described (named s) ++ all_described rest

-- A droppable copy of a call that is among the known ones.
abbrev pub repeats : List Text → Named → Bool
repeats known (anchors k) = false
repeats known (calls k) = contains known k
repeats known unnamed = false

-- `known` holds what a copy is compared with behind the spans `before`.
Known : List Text → List Text → List NormalizedSpan → List Text → Type 0
Known recent in_batch before known =
    (k : Text)
    → contains known k
      ≡ (contains recent k || (contains in_batch k || contains (all_described before) k))

repeats-is_copy :
    (recent in_batch known : List Text) (n : Named)
    → Known recent in_batch [] known
    → repeats known n ≡ is_copy recent in_batch n
unfolding Known
repeats-is_copy recent in_batch known (anchors k) h = refl
repeats-is_copy recent in_batch known (calls k) h = ground (arith, h k)
repeats-is_copy recent in_batch known unnamed h = refl

Known-step :
    (recent in_batch known : List Text) (x : NormalizedSpan) (before : List NormalizedSpan)
    (n : Named)
    → named x ≡ n
    → Known recent in_batch (x ∷ before) known
    → Known recent (new_keys recent in_batch n ++ in_batch) before known
unfolding Known
Known-step recent in_batch known x before (anchors c) e h k =
    let here : all_described (x ∷ before) ≡ c ∷ all_described before = rw e refl in
    ground (arith, rw (here) at (h k), text_beq_iff c k)
Known-step recent in_batch known x before (calls c) e h k =
    let here : all_described (x ∷ before) ≡ c ∷ all_described before = rw e refl in
    ground (arith, rw (here) at (h k), text_beq_iff c k)
Known-step recent in_batch known x before unnamed e h k =
    let here : all_described (x ∷ before) ≡ all_described before = rw e refl in
    ground (arith, rw (here) at (h k))

kept-snoc :
    (recent in_batch known : List Text) (before : List NormalizedSpan) (s : NormalizedSpan)
    → Known recent in_batch before known
    → (retain_each recent in_batch (before ++ s ∷ [])).kept
      ≡ (retain_each recent in_batch before).kept
        ++ (if repeats known (named s) then [] else s ∷ [])
unfolding retain_each
kept-snoc recent in_batch known [] s h =
    rw (repeats-is_copy recent in_batch known (named s) h)
      (elim (Bool-cases (is_copy recent in_batch (named s))) [
        | inl copy ↦ rw copy refl
        | inr new ↦ rw new refl
      ])
kept-snoc recent in_batch known (x ∷ before) s h =
    let later =
      kept-snoc recent (new_keys recent in_batch (named x) ++ in_batch) known before s
        (Known-step recent in_batch known x before (named x) refl h) in
    elim (Bool-cases (is_copy recent in_batch (named x))) [
      | inl copy ↦ rw copy later
      | inr new ↦ rw new (ap (◌∷◌ x) later)
    ]

filter-snoc :
    (ledger : CallLedger) (before : List NormalizedSpan) (s : NormalizedSpan)
    → (filter ledger (before ++ s ∷ [])).0
      ≡ (filter ledger before).0
        ++ (if repeats (ledger.set ++ all_described before) (named s) then [] else s ∷ [])
unfolding filter Known
filter-snoc ledger before s =
    kept-snoc ledger.set [] (ledger.set ++ all_described before) before s
      (λ k. contains-append ledger.set (all_described before) k)

-- What a batch keeps of its last span depends on the ledger and the spans before it alone: the
-- span is kept, behind what is kept of those, unless it is a droppable copy of a call that the ledger
-- remembers or that one of them describes, as a copy or as its anchor. So a batch keeps at most one
-- droppable copy of a call, and none whose call the ledger remembers. It keeps every other span,
-- in order, and the ledger's counter of 64 bits grows by the number of the spans that are dropped.
pub filter_lem :
    (ledger : CallLedger) (spans : List NormalizedSpan)
    → ((s : NormalizedSpan)
        → (filter ledger (spans ++ s ∷ [])).0
          ≡ (filter ledger spans).0
            ++ (if repeats (ledger.set ++ all_described spans) (named s) then [] else s ∷ []))
      × IsDistinct (call_keys (filter ledger spans).0)
      × ((k : Text)
          → contains (call_keys (filter ledger spans).0) k ≡ true
          → contains ledger.set k ≡ false)
      × (no_copies (filter ledger spans).0 ≡ no_copies spans)
      × ((filter ledger spans).2.dropped
          ≡ (ledger.dropped + (length spans - length (filter ledger spans).0)) % 2 ^ 64)
unfolding filter
filter_lem ledger spans =
    let once = retain_each-Once ledger.set [] spans in
    (
      filter-snoc ledger spans,
      once.distinct,
      λ k m. ground (arith, once.unseen k m),
      once.others,
      omega (arith, once.counts),
    )
