-- ===== src/Price/Shapes.antt =====
-- The shapes of model ids, described by their characters, and what the lookup makes of them.
use mathlib.Core.Path.{subst}
use mathlib.Core.List.{append_assoc, append-nil}
use evald.Prelude.{
  ℕ, suc, ◌<◌, ◌≤◌, ◌≡◌, ◌≢◌, ◌⊎◌, inl, inr, refl, true, false, some, none, List, [], ◌∷◌, ◌++◌,
  Text, bytes, text_beq, text_beq_iff, text_eq, contains, All, All-append, Without,
  split_once-append, split_once-none, rsplit_once-append, split_once, length-append, split-append,
  split_none, all_bytes, nat_beq, length, to_ascii_lowercase, arith, Bool-cases,
}
use evald.Prelude.Options.{unwrap_or}
use evald.Prelude.Decimal.{AreDigits, is_ascii_digit}
use evald.Price.{
  Price, PriceTable, regions, strip_first, strip_region, is_version_number, is_version_segment,
  cut_version, before_date, next_segment, lookup,
}
use evald.Price.Parts.{Prices, IsDate, no_date, date, IsRegion, no_region, region}
use evald.Price.Tried.{IsCut, uncut, cut, undated, IsTried, plain, regional, further, lookup-tried}

pub data IsVersion : Text → Type 0 where
  latest : IsVersion (bytes "latest")
  snapshot : (s : Text) → AreDigits s → 2 ≤ length s → IsVersion s
  numbered : (s : Text) → AreDigits s → 0 < length s → IsVersion (b'v' ∷ s)
  pointed :
      (s t : Text)
      → AreDigits s
      → 0 < length s
      → AreDigits t
      → 0 < length t
      → IsVersion (b'v' ∷ (s ++ b':' ∷ t))

-- `name` is `k` with at most `most` versions behind it.
pub data IsVersioned : ℕ → Text → Text → Type 0 where
  unversioned : (most : ℕ) (k : Text) → IsVersioned most k k
  versioned :
      (most : ℕ) (head seg k : Text)
      → IsVersioned most head k
      → IsVersion seg
      → IsVersioned (suc most) (head ++ b'-' ∷ seg) k

pub data IsProviderPath : Text → Type 0 where
  no_providers : IsProviderPath []
  behind : (p s : Text) → Without b'/' p → IsProviderPath s → IsProviderPath (p ++ b'/' ∷ s)

all_bytes-digits : (s : Text) → AreDigits s → all_bytes is_ascii_digit s ≡ true
all_bytes-digits [] h = refl
all_bytes-digits (c ∷ s) h = rw (h.0) (all_bytes-digits s h.1)

digits-Without : (at : ℕ) (s : Text) → is_ascii_digit at ≡ false → AreDigits s → Without at s
digits-Without at [] n h = tt
digits-Without at (c ∷ s) n h = (ground (arith, n, h.0), digits-Without at s n h.1)

version_number :
    (s major minor : Text)
    → 0 < length s
    → unwrap_or (split_once s b':') (s, bytes "0") ≡ (major, minor)
    → all_bytes is_ascii_digit major ≡ true
    → 0 < length minor
    → all_bytes is_ascii_digit minor ≡ true
    → is_version_segment (b'v' ∷ s) ≡ true
unfolding is_version_segment is_version_number
version_number [] major minor pos e d m g = absurd (omega arith)
version_number (c ∷ s) major [] pos e d m g = absurd (omega arith)
version_number (c ∷ s) major (z ∷ minor) pos e d m g = rw (e, d) (ground (arith, g))

IsVersion-Without : (seg : Text) → IsVersion seg → Without b'-' seg
IsVersion-Without _ latest = (refl, (refl, (refl, (refl, (refl, (refl, tt))))))
IsVersion-Without _ (snapshot s d h) = digits-Without b'-' s refl d
IsVersion-Without _ (numbered s d h) = (refl, digits-Without b'-' s refl d)
IsVersion-Without _ (pointed s t d h e g) = (
  refl,
  All-append (λ (c : ℕ). nat_beq c b'-' ≡ false) s (b':' ∷ t) (digits-Without b'-' s refl d)
      (refl, digits-Without b'-' t refl e),
)

is_version_segment-IsVersion : (seg : Text) → IsVersion seg → is_version_segment seg ≡ true
unfolding is_version_segment
is_version_segment-IsVersion _ latest = refl
is_version_segment-IsVersion _ (snapshot s d h) = ground (arith, all_bytes-digits s d)
is_version_segment-IsVersion _ (numbered s d h) =
    version_number s s (bytes "0") h
      (rw (split_once-none s b':' (digits-Without b':' s refl d)) refl) (all_bytes-digits s d)
      (omega arith) refl
is_version_segment-IsVersion _ (pointed s t d h e g) =
    version_number (s ++ b':' ∷ t) s t (omega (arith, length-append s (b':' ∷ t)))
      (rw (split_once-append s t b':' (digits-Without b':' s refl d)) refl) (all_bytes-digits s d) g
      (all_bytes-digits t e)

cut_version-append :
    (head seg : Text)
    → 0 < length head
    → IsVersion seg
    → cut_version (head ++ b'-' ∷ seg) ≡ some head
unfolding cut_version
cut_version-append [] seg pos v = absurd (omega arith)
cut_version-append (c ∷ head) seg pos v =
    rw
      (
        rsplit_once-append (c ∷ head) seg b'-' (IsVersion-Without seg v),
        is_version_segment-IsVersion seg v,
      )
      refl

length-IsVersioned : (most : ℕ) (name k : Text) → IsVersioned most name k → length k ≤ length name
length-IsVersioned _ _ _ (unversioned most k) = omega arith
length-IsVersioned _ _ _ (versioned most head seg k h v) =
    omega (arith, length-IsVersioned most head k h, length-append head (b'-' ∷ seg))

IsVersioned-IsCut :
    (most : ℕ) (name k : Text) → 0 < length k → IsVersioned most name k → IsCut most name k
IsVersioned-IsCut _ _ _ pos (unversioned most k) = uncut most k
IsVersioned-IsCut _ _ _ pos (versioned most head seg k h v) =
    cut most (head ++ b'-' ∷ seg) head k
      (cut_version-append head seg (omega (arith, length-IsVersioned most head k h)) v)
      (IsVersioned-IsCut most head k pos h)

-- What follows a region is what the region is stripped from.
abbrev StripsTo : Text → Type 0
StripsTo place = (t : Text) → strip_region (place ++ t) ≡ t

regions_strip : All StripsTo regions
unfolding strip_region strip_first
regions_strip = (
  λ t. refl,
  (λ t. refl, (λ t. refl, (λ t. refl, (λ t. refl, (λ t. refl, (λ t. refl, (λ t. refl, tt))))))),
)

All-contains {κ} :
    (P : Text → Type κ) (xs : List Text) (x : Text) → All P xs → contains xs x ≡ true → P x
All-contains P [] x h m = absurd (ground (arith, m))
All-contains P (y ∷ ys) x h m = elim (Bool-cases (text_beq y x)) [
  | inl same ↦ subst (λ (z : Text). P z) ((text_beq_iff y x).0 same) h.0
  | inr other ↦ All-contains P ys x h.1 (rw (other) at m)
]

before_date-IsDate :
    (base day : Text) → Without b'@' base → IsDate day → undated (base ++ day) ≡ base
unfolding before_date
before_date-IsDate base _ h no_date = rw (append-nil base, split_none base b'@' h) refl
before_date-IsDate base _ h (date s) = rw (split-append base s b'@' h) refl

next_segment-append :
    (p rest : Text) → Without b'/' p → 0 < length rest → next_segment (p ++ b'/' ∷ rest) ≡ some rest
unfolding next_segment
next_segment-append p [] h pos = absurd (omega arith)
next_segment-append p (c ∷ rest) h pos = rw (split_once-append p (c ∷ rest) b'/' h) refl

-- The characters of an id for the key `k`: providers, then at most one region, the key, at most
-- four versions, and a date, which begins at the first `@` behind the providers.
pub data IsNameFor : Text → Text → Type 0 where
  shaped :
      (front place name day k : Text)
      → IsProviderPath front
      → IsRegion place
      → IsVersioned 4 name k
      → IsDate day
      → Without b'@' (place ++ name)
      → 0 < length k
      → IsNameFor (front ++ ((place ++ name) ++ day)) k

tried_here :
    (place name day k : Text)
    → IsRegion place
    → IsCut 4 name k
    → IsDate day
    → Without b'@' (place ++ name)
    → IsTried ((place ++ name) ++ day) k
tried_here _ name day k no_region is_cut is_date h =
    plain (name ++ day) k (rw (before_date-IsDate name day h is_date) is_cut)
tried_here _ name day k (region place listed) is_cut is_date h =
    regional ((place ++ name) ++ day) k (
      rw
        (
          before_date-IsDate (place ++ name) day h is_date,
          All-contains StripsTo regions place regions_strip listed name,
        )
        is_cut)

tried_behind :
    (front rest k : Text)
    → IsProviderPath front
    → 0 < length rest
    → IsTried rest k
    → IsTried (front ++ rest) k
tried_behind _ rest k no_providers pos tried = tried
tried_behind _ rest k (behind p s h path) pos tried = rw (append_assoc p (b'/' ∷ s) rest) (
    further (p ++ b'/' ∷ (s ++ rest)) (s ++ rest) k
      (next_segment-append p (s ++ rest) h (omega (arith, length-append s rest)))
      (tried_behind s rest k path pos tried))

IsNameFor-IsTried : (id k : Text) → IsNameFor id k → IsTried id k
IsNameFor-IsTried _ _ (shaped front place name day k path is_region versions is_date h pos) =
    tried_behind front ((place ++ name) ++ day) k path
      (omega (
        arith,
        length-IsVersioned 4 name k versions,
        length-append place name,
        length-append (place ++ name) day,
      ))
      (tried_here place name day k is_region (IsVersioned-IsCut 4 name k pos versions) is_date h)

-- A model has a price whenever the table prices its id as it is written, or the id in lower case
-- is a key with nothing around it but providers, each up to a slash, then a region, and behind the
-- key at most four versions and a date. A version is `latest`, two digits or more, or a `v` with a
-- number or two numbers at a colon. The date begins at the first `@` behind the providers.
pub lookup-found :
    (table : PriceTable) (model k : Text) (price : Price)
    → (k ≡ model) ⊎ IsNameFor (to_ascii_lowercase model) k
    → Prices table k price
    → lookup table model ≢ none
lookup-found table model k price (inl e) h = lookup-tried table model k price (inl e) h
lookup-found table model k price (inr shape) h =
    lookup-tried table model k price (inr (IsNameFor-IsTried (to_ascii_lowercase model) k shape)) h
