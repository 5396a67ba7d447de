-- ===== src/Hot/Push.antt =====
-- The identities in the hot tier after a push.
use evald.Prelude.{ℕ, ◌≡◌, ◌∙◌, Bool, true, ◌||◌, List, [], ◌∷◌, ◌++◌, nat_eq, contains, arith}
use evald.Prelude.Maps.{Map, nat_less, get, put, values}
use evald.Model.{NormalizedSpan}
use evald.Key.{SpanKey, key_eq}
use evald.Hot.{HotTier, push, all_spans, concat, or_default}
use evald.Query.Distinct.{identities, contains-identities-append}

concat-get :
    (n : ℕ) (m : Map ℕ (List NormalizedSpan)) (k : SpanKey)
    → contains (identities (or_default (get n m))) k ≡ true
    → contains (identities (concat (values m))) k ≡ true
concat-get n [] k h = h
concat-get n ((j, v) ∷ m) k h =
    ground (arith, concat-get n m k, contains-identities-append v (concat (values m)) k)

concat-put_more :
    (n : ℕ) (w : List NormalizedSpan) (more : Bool) (m : Map ℕ (List NormalizedSpan)) (k : SpanKey)
    → contains (identities w) k ≡ (contains (identities (or_default (get n m))) k || more)
    → contains (identities (concat (values (put n w m)))) k
      ≡ (contains (identities (concat (values m))) k || more)
concat-put_more n w more [] k h = contains-identities-append w [] k ∙ ground arith
concat-put_more n w more ((j, v) ∷ m) k h = ground (
  arith,
  concat-put_more n w more m k,
  concat-get n m k,
  contains-identities-append v (concat (values m)) k,
  contains-identities-append w (concat (values m)) k,
  contains-identities-append v (concat (values (put n w m))) k,
  contains-identities-append w (v ++ concat (values m)) k,
)

-- A push adds its identities to the tier, and nothing else.
pub contains-push :
    (hot : HotTier) (seqno : ℕ) (spans : List NormalizedSpan) (k : SpanKey)
    → contains (identities (all_spans (push hot seqno spans))) k
      ≡ (contains (identities (all_spans hot)) k || contains (identities spans) k)
unfolding all_spans push
contains-push hot seqno spans k =
    concat-put_more seqno (or_default (get seqno hot.segments) ++ spans)
      (contains (identities spans) k) hot.segments k
      (contains-identities-append (or_default (get seqno hot.segments)) spans k)
