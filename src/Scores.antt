-- ===== src/Scores.antt =====
-- src/store/scores.rs: the score store, a table of scores by id and an index of ids by target. redb
-- and `serde_json` are parameters.
pub mod Indexed
pub mod Examples
use evald.Prelude.{
  ℕ, ◌≡◌, Bool, true, false, Option, none, some, List, [], ◌∷◌, map, Text, text_beq, text_eq,
  contains, take, length, if◌then◌else◌,
}
use evald.Prelude.Io.{ErrorKind, invalid_data, Result, Outcome, ok, err, ◌>>=◌}
use evald.Model.{Score, key}
use evald.Rows.{sort_newest}
use evald.Index.{Redb}

-- A table of `&str` to `&str`, as it is read and written within a transaction.
pub record TextTable : Type 1 where
  pub Table : Type 0
  pub new_table : Table
  pub get : Text → Table → Option Text
  pub insert : Text → Text → Table → Table
  pub iter : Table → List (Text × Text)
  pub get-new_table : (k : Text) → get k new_table ≡ none
  pub get-insert :
      (k q v : Text) (t : Table) → get q (insert k v t) ≡ (if text_beq k q then some v else get q t)

-- `serde_json::to_string` and `from_str` at `Score`.
pub record ScoreJson : Type 0 where
  pub to_string : Score → Option Text
  pub from_str : Text → Option Score

module _ (redb : Redb) (texts : TextTable) (json : ScoreJson) where
  open redb use {Multimap, new_multimap, values, insert_value, remove_value}
  open texts use {Table, new_table, get, insert, iter}
  open json use {to_string, from_str}

  pub record ScoreStore : Type 0 where
    pub scores : Table
    pub by_target : Multimap

  unfoldable pub scores_new : ScoreStore
  scores_new = record { scores = new_table; by_target = new_multimap }

  abbrev pub or_invalid {ℓ} : {A : Type ℓ} → Option A → Result A
  or_invalid none = err invalid_data
  or_invalid (some a) = ok a

  unfoldable pub parse_score : Text → Result Score
  parse_score text = or_invalid (from_str text)

  -- The target index without the mapping of an older score under another target.
  abbrev pub without_old : Multimap → Text → Text → Score → Multimap
  without_old by_target id new_key old =
      if text_beq (key old.target) new_key
      then by_target
      else remove_value (key old.target) id by_target

  abbrev pub cleared : Multimap → Text → Text → Option Text → Result Multimap
  cleared by_target id new_key none = ok by_target
  cleared by_target id new_key (some existing) = do
    old ← or_invalid (from_str existing)
    ok (without_old by_target id new_key old)

  -- The body of the loop of `put_batch`.
  unfoldable pub put_one : ScoreStore → Score → Result ScoreStore
  put_one st score = do
    by_target ← cleared st.by_target score.id (key score.target) (get score.id st.scores)
    text ← or_invalid (to_string score)
    ok (record {
      scores = insert score.id text st.scores;
      by_target = insert_value (key score.target) score.id by_target;
    })

  unfoldable pub put_each : ScoreStore → List Score → Result ScoreStore
  unfolding put_one
  put_each st [] = ok st
  put_each st (score ∷ rest) = do st' ← put_one st score; put_each st' rest

  -- One transaction: an error in the loop or at the commit leaves the store as it was.
  abbrev pub committed : ScoreStore → Option ErrorKind → Result ScoreStore → Outcome × ScoreStore
  committed st failure (err kind) = (err kind, st)
  committed st (some kind) (ok after) = (err kind, st)
  committed st none (ok after) = (ok tt, after)

  unfoldable pub put_batch : ScoreStore → List Score → Option ErrorKind → Outcome × ScoreStore
  unfolding put_each
  put_batch st [] failure = (ok tt, st)
  put_batch st (score ∷ rest) failure = committed st failure (put_each st (score ∷ rest))

  abbrev found : Option Text → Result (Option Score)
  found none = ok none
  found (some text) = do score ← or_invalid (from_str text); ok (some score)

  -- `ScoreStore::get`
  unfoldable pub get_score : ScoreStore → Text → Result (Option Score)
  get_score st id = found (get id st.scores)

  abbrev with_found : Option Score → List Score → List Score
  with_found none rest = rest
  with_found (some score) rest = score ∷ rest

  -- The loop of `by_target_key` over the ids; an id without a score is passed over.
  unfoldable pub look_up : ScoreStore → List Text → Result (List Score)
  look_up st [] = ok []
  look_up st (id ∷ rest) =
      let later = look_up st rest in
      do score ← found (get id st.scores); tail ← later; ok (with_found score tail)

  abbrev pub newest_first : List Score → List Score
  newest_first = sort_newest (λ s. s.ts_unix_nano)

  unfoldable pub by_target_key : ScoreStore → Text → Result (List Score)
  unfolding look_up
  by_target_key st target_key = do
    out ← look_up st (values target_key st.by_target)
    ok (newest_first out)

  abbrev parse_each : List (Text × Text) → Result (List Score)
  parse_each [] = ok []
  parse_each (entry ∷ rest) =
      let later = parse_each rest in
      do score ← or_invalid (from_str entry.1); tail ← later; ok (score ∷ tail)

  -- `ScoreStore::list`
  unfoldable pub list_scores : ScoreStore → ℕ → Result (List Score)
  list_scores st limit = do out ← parse_each (iter st.scores); ok (take limit (newest_first out))

  unfoldable pub count : ScoreStore → ℕ
  count st = length (iter st.scores)
