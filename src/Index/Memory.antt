-- ===== src/Index/Memory.antt =====
-- The index over tables in memory: `Redb` has an instance.
use evald.Prelude.{
  ℕ, ◌≡◌, refl, ap, ◌∙◌, sym, nat_beq, Bool-cases, Option-cases, inl, inr, Bool, true, false, not,
  Option, none, some, List, [], ◌∷◌, Text, text_beq, text_beq_iff, text_eq, pair_eq, contains,
  insert, remove, contains-insert, contains-remove, All, if◌then◌else◌, arith,
}
use evald.Prelude.Maps.{Map, text_less, get, put, delete, keys, get-put, get-delete}
use evald.Model.{is_none}
use evald.Index.{Redb, pairs}

abbrev values_of : Text → List (Text × Text) → List Text
values_of k [] = []
values_of k ((j, v) ∷ m) = if text_beq j k then v ∷ values_of k m else values_of k m

abbrev singles : List (Text × Text) → List (Text × List Text)
singles [] = []
singles ((k, v) ∷ m) = (k, v ∷ []) ∷ singles m

pub contains-values_of :
    (k v : Text) (m : List (Text × Text)) → contains (values_of k m) v ≡ contains m (k, v)
contains-values_of k v [] = refl
contains-values_of k v ((j, w) ∷ m) = ground (arith, contains-values_of k v m)

pub pairs-singles : (m : List (Text × Text)) → pairs (singles m) ≡ m
pairs-singles [] = refl
pairs-singles ((k, v) ∷ m) = ap (◌∷◌ (k, v)) (pairs-singles m)

-- The entries that a lookup finds.
abbrev finds : Option ℕ → ℕ → Bool
finds none v = false
finds (some w) v = nat_beq w v

abbrev live : Map Text ℕ → Map Text ℕ → Map Text ℕ
live t [] = []
live t ((k, v) ∷ rest) = if finds (get k t) v then (k, v) ∷ live t rest else live t rest

found : (o : Option ℕ) (v : ℕ) → finds o v ≡ true → o ≡ some v
found none v h = ground arith
found (some w) v h = ground arith

pub get-live : (t l : Map Text ℕ) → All (λ (e : Text × ℕ). get e.0 t ≡ some e.1) (live t l)
get-live t [] = tt
get-live t ((k, v) ∷ l) = elim (Bool-cases (finds (get k t) v)) [
  | inl e ↦ rw e (found (get k t) v e, get-live t l)
  | inr e ↦ rw e (get-live t l)
]

contains-live_of :
    (t l : Map Text ℕ) (k : Text) (v : ℕ)
    → get k l ≡ some v
    → get k t ≡ some v
    → contains (keys (live t l)) k ≡ true
contains-live_of t [] k v h e = ground arith
contains-live_of t ((j, w) ∷ l) k v h e = ground (arith, contains-live_of t l k v, text_beq_iff j k)

contains-live_get :
    (t l : Map Text ℕ) (k : Text) → contains (keys (live t l)) k ≡ true → is_none (get k t) ≡ false
contains-live_get t [] k h = ground arith
contains-live_get t ((j, w) ∷ l) k h =
    ground (arith, contains-live_get t l k, text_beq_iff j k, found (get j t) w)

pub contains-live :
    (k : Text) (t : Map Text ℕ) → contains (keys (live t t)) k ≡ not (is_none (get k t))
contains-live k t = elim (Option-cases (get k t)) [
  | inl e ↦ ground (arith, contains-live_get t t k)
  | inr (v, e) ↦ ground (arith, contains-live_of t t k v)
]

abbrev pub memory : Redb
memory = record {
  Table = Map Text ℕ;
  Multimap = List (Text × Text);
  new_table = [];
  new_multimap = [];
  get = get;
  insert = put;
  remove = delete;
  iter = λ t. live t t;
  values = values_of;
  insert_value = λ k v m. insert (k, v) m;
  remove_value = λ k v m. remove (k, v) m;
  iter_values = singles;
  get-new_table = λ k. refl;
  get-insert = λ k q v t. get-put k q v t;
  get-remove = λ k q t. get-delete k q t;
  contains-iter = contains-live;
  get-iter = λ t. get-live t t;
  values-new_multimap = λ k. refl;
  values-insert_value = λ k q v w m. ground (
    arith,
    contains-values_of q w (insert (k, v) m),
    contains-values_of q w m,
    contains-insert (k, v) (q, w) m,
  );
  values-remove_value = λ k q v w m. ground (
    arith,
    contains-values_of q w (remove (k, v) m),
    contains-values_of q w m,
    contains-remove (k, v) (q, w) m,
  );
  contains-iter_values = λ k v m.
      ap (λ (l : List (Text × Text)). contains l (k, v)) (pairs-singles m)
      ∙ sym (contains-values_of k v m);
}
