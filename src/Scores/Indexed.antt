-- ===== src/Scores/Indexed.antt =====
-- The index by target and the scores.
use mathlib.Core.Path.{subst}
use evald.Prelude.{
  ◌≡◌, refl, ap, ◌∙◌, sym, Bool, false, ◌&&◌, ◌||◌, not, Option, none, some, List, [], ◌∷◌, Text,
  text_beq, text_beq_iff, text_eq, contains, All, arith, Option-cases, Bool-cases, inl, inr,
}
use evald.Prelude.Io.{ErrorKind, Result, ok, err, ◌>>=◌, Result-cases}
use evald.Model.{Score, key}
use evald.Index.{Redb}
use evald.Scores.{
  TextTable, ScoreJson, ScoreStore, or_invalid, without_old, cleared, put_one, put_each, committed,
  put_batch,
}

module _ (redb : Redb) (texts : TextTable) (json : ScoreJson) where
  open redb use {
    Multimap, values, insert_value, remove_value, values-insert_value, values-remove_value,
  }
  open texts use {Table, get, insert, get-insert}
  open json use {to_string, from_str}

  -- Whether a stored text is a score under a target key.
  abbrev is_under : Text → Option Score → Bool
  is_under target_key none = false
  is_under target_key (some score) = text_beq (key score.target) target_key

  abbrev parsed : Option Text → Option Score
  parsed none = none
  parsed (some text) = from_str text

  -- A target lists an id exactly if the score of that id is under the target.
  abbrev pub IsIndexed : ScoreStore redb texts json → Type 0
  IsIndexed st =
      (target_key id : Text)
      → contains (values target_key st.by_target) id
        ≡ is_under target_key (parsed (get id st.scores))

  abbrev pub Parses : Score → Type 0
  Parses score = (text : Text) → to_string score ≡ some text → from_str text ≡ some score

  -- The index without the mappings of an id, but for its new target.
  abbrev Cleared : ScoreStore redb texts json → Text → Text → Multimap → Type 0
  Cleared st id new_key by_target =
      (target_key q : Text)
      → contains (values target_key by_target) q ≡ (
          contains (values target_key st.by_target) q
          && (not (text_beq id q) || text_beq new_key target_key))

  without_old-Cleared :
      (st : ScoreStore redb texts json) (id new_key : Text) (old : Score)
      → IsIndexed st
      → parsed (get id st.scores) ≡ some old
      → Cleared st id new_key (without_old redb texts json st.by_target id new_key old)
  without_old-Cleared st id new_key old h e target_key q =
      let mine : contains (values target_key st.by_target) id
          ≡ text_beq (key old.target) target_key =
        h target_key id ∙ ap (is_under target_key) e in
      elim (Bool-cases (text_beq (key old.target) new_key)) [
        | inl same ↦
            rw same (ground (arith, mine, text_beq_iff id q, text_beq_iff (key old.target) new_key))
        | inr moved ↦ rw moved (
            values-remove_value (key old.target) target_key id q st.by_target
            ∙ ground (
              arith,
              mine,
              text_beq_iff id q,
              text_beq_iff (key old.target) target_key,
              text_beq_iff new_key target_key,
              text_beq_iff (key old.target) new_key,
            ))
      ]

  cleared-Cleared :
      (st : ScoreStore redb texts json) (id new_key : Text) (o : Option Text) (by_target : Multimap)
      → IsIndexed st
      → get id st.scores ≡ o
      → cleared redb texts json st.by_target id new_key o ≡ ok by_target
      → Cleared st id new_key by_target
  cleared-Cleared st id new_key none by_target h e c =
      subst (Cleared st id new_key) {x = st.by_target} (cc c) (λ target_key q. ground (
        arith,
        h target_key id,
        ap (λ (o : Option Text). is_under target_key (parsed o)) e,
        text_beq_iff id q,
      ))
  cleared-Cleared st id new_key (some existing) by_target h e c =
      elim (Option-cases (from_str existing)) [
        | inl broken ↦ absurd (ground arith)
        | inr (old, f) ↦
            subst (Cleared st id new_key)
              {x = without_old redb texts json st.by_target id new_key old}
              (cc (
                ap
                    (λ (o : Option Score). or_invalid redb texts json o >>= λ s.
                      ok (without_old redb texts json st.by_target id new_key s))
                    f,
                c,
              ))
              (without_old-Cleared st id new_key old h (ap parsed e ∙ f))
      ]

  -- Writing one score.
  inserted-IsIndexed :
      (st : ScoreStore redb texts json) (score : Score) (text : Text) (by_target : Multimap)
      → IsIndexed st
      → from_str text ≡ some score
      → Cleared st score.id (key score.target) by_target
      → IsIndexed (record {
        scores = insert score.id text st.scores;
        by_target = insert_value (key score.target) score.id by_target;
      })
  inserted-IsIndexed st score text by_target h e c target_key q =
      values-insert_value (key score.target) target_key score.id q by_target
      ∙ elim (Bool-cases (text_beq score.id q)) [
        | inl same ↦
            rw (get-insert score.id q text st.scores, same, e) (ground (arith, c target_key q))
        | inr other ↦
            rw (get-insert score.id q text st.scores, other)
              (ground (arith, c target_key q, h target_key q))
      ]

  put_one-eq :
      (st : ScoreStore redb texts json) (score : Score) (by_target : Multimap) (text : Text)
      → cleared redb texts json st.by_target score.id (key score.target) (get score.id st.scores)
        ≡ ok by_target
      → to_string score ≡ some text
      → put_one redb texts json st score
        ≡ ok (record {
          scores = insert score.id text st.scores;
          by_target = insert_value (key score.target) score.id by_target;
        })
  unfolding put_one
  put_one-eq st score by_target text f g = rw (f, g) refl

  put_one-IsIndexed :
      (st st' : ScoreStore redb texts json) (score : Score)
      → IsIndexed st
      → Parses score
      → put_one redb texts json st score ≡ ok st'
      → IsIndexed st'
  unfolding put_one
  put_one-IsIndexed st st' score h parses e =
      elim (Result-cases (
        cleared redb texts json st.by_target score.id (key score.target)
          (get score.id st.scores))) [
            | inr (kind, f) ↦ absurd (ground arith)
            | inl (by_target, f) ↦ elim (Option-cases (to_string score)) [
              | inl broken ↦ absurd (ground arith)
              | inr (text, g) ↦
                  subst IsIndexed
                    {x = record {
                      scores = insert score.id text st.scores;
                      by_target = insert_value (key score.target) score.id by_target;
                    }}
                    (cc (put_one-eq st score by_target text f g, e))
                    (inserted-IsIndexed st score text by_target h (parses text g) (
                      cleared-Cleared st score.id (key score.target) (get score.id st.scores)
                        by_target h refl f))
            ]
          ]

  put_each-IsIndexed :
      (st st' : ScoreStore redb texts json) (scores : List Score)
      → IsIndexed st
      → All Parses scores
      → put_each redb texts json st scores ≡ ok st'
      → IsIndexed st'
  unfolding put_each
  put_each-IsIndexed st st' [] h parses e = subst IsIndexed {x = st} (cc e) h
  put_each-IsIndexed st st' (score ∷ rest) h parses e =
      elim (Result-cases (put_one redb texts json st score)) [
        | inr (kind, f) ↦ absurd (ground arith)
        | inl (next, f) ↦
            put_each-IsIndexed next st' rest (put_one-IsIndexed st next score h parses.0 f) parses.1
              (ap
                  (λ (r : Result (ScoreStore redb texts json)).
                    r >>= λ st''. put_each redb texts json st'' rest)
                  (sym f)
                ∙ e)
      ]

  committed-IsIndexed :
      (st : ScoreStore redb texts json) (failure : Option ErrorKind)
      (r : Result (ScoreStore redb texts json))
      → IsIndexed st
      → ((st' : ScoreStore redb texts json) → r ≡ ok st' → IsIndexed st')
      → IsIndexed (committed redb texts json st failure r).1
  committed-IsIndexed st failure (err kind) h after = h
  committed-IsIndexed st (some kind) (ok st') h after = h
  committed-IsIndexed st none (ok st') h after = after st' refl

  -- Storing a batch, whether it is committed or fails, keeps the index by target exact: a target
  -- lists an id if and only if the stored score of that id is about the target. So a score that is
  -- written again under another target is no longer found under the old one. The scores are
  -- written as texts that parse back to them.
  pub put_batch-IsIndexed :
      (st : ScoreStore redb texts json) (scores : List Score) (failure : Option ErrorKind)
      → IsIndexed st
      → All Parses scores
      → IsIndexed (put_batch redb texts json st scores failure).1
  unfolding put_batch
  put_batch-IsIndexed st [] failure h parses = h
  put_batch-IsIndexed st (score ∷ rest) failure h parses =
      committed-IsIndexed st failure (put_each redb texts json st (score ∷ rest)) h
        (λ st' e. put_each-IsIndexed st st' (score ∷ rest) h parses e)
