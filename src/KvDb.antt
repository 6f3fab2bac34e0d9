-- ===== src/KvDb.antt =====
-- The key-value database with checkpoints (db/kvdb/kvdb.go). A checkpoint is the content that the
-- database had when it was made. The directory is the list of the `BatchNum<N>` folders by number,
-- in the order in which `ListCheckpoints` returns them. What is left out: errors of the file
-- system and of Pebble, locks, and opening and closing; the deletion of old checkpoints, which
-- `MakeCheckpoint` starts in the background, is the operation `delete_old_checkpoints`.
pub mod Restore
use han_hermez_node.Common.Ids.{idx_bytes}
use han_hermez_node.Prelude.{
  ℕ, ◌+◌, ◌-◌, Bool, true, false, not, ◌&&◌, Option, none, some, List, [], ◌∷◌, ltb, ◌==◌,
  if◌then◌else◌, length, drop, Error, Result, ok, err, ◌>>=◌, ◌>>◌, ok_or,
}

-- The keys `k:currentbatch` and `k:idx` of a storage, and a fresh storage.
pub record Storage (D : Type 0) : Type 0 where
  pub empty : D
  pub stored_batch : D → Option ℕ
  pub put_batch : ℕ → D → D
  pub stored_idx : D → Option ℕ
  pub put_idx : ℕ → D → D

pub record KvDb (D : Type 0) : Type 0 where
  pub keep : ℕ
  pub no_gaps_check : Bool
  pub no_last : Bool
  pub db : D
  pub current_idx : ℕ
  pub current_batch : ℕ
  pub checkpoints : List (ℕ × D)
  pub last : Option D

-- `RollupConstReservedIDx`
abbrev pub reserved_idx : ℕ
reserved_idx = 255

module _ {D : Type 0} where
  -- The folder of a checkpoint, written in its place in the order.
  unfoldable pub put_checkpoint : ℕ → D → List (ℕ × D) → List (ℕ × D)
  put_checkpoint n d [] = (n, d) ∷ []
  put_checkpoint n d ((m, e) ∷ l) =
      if n == m
      then (n, d) ∷ l
      else if ltb n m
      then (n, d) ∷ (m, e) ∷ l
      else (m, e) ∷ put_checkpoint n d l

  unfoldable pub find_checkpoint : ℕ → List (ℕ × D) → Option D
  find_checkpoint n [] = none
  find_checkpoint n ((m, e) ∷ l) = if n == m then some e else find_checkpoint n l

  -- The checkpoints with a number above `n` are deleted.
  unfoldable pub drop_above : ℕ → List (ℕ × D) → List (ℕ × D)
  drop_above n [] = []
  drop_above n ((m, e) ∷ l) = if ltb n m then [] else (m, e) ∷ drop_above n l

  -- The loop of `ListCheckpoints` over the numbers behind the first.
  unfoldable pub no_gaps_from : ℕ → List (ℕ × D) → Bool
  no_gaps_from first [] = true
  no_gaps_from first ((m, e) ∷ l) = m == first + 1 && no_gaps_from (first + 1) l

  unfoldable pub no_gaps : List (ℕ × D) → Bool
  unfolding no_gaps_from
  no_gaps [] = true
  no_gaps ((m, e) ∷ l) = no_gaps_from m l

  -- `ListCheckpoints`
  unfoldable pub list_checkpoints : KvDb D → Result (List (ℕ × D))
  unfolding no_gaps
  list_checkpoints k =
      if not k.no_gaps_check && not (no_gaps k.checkpoints)
      then err Error.checkpoint_gap
      else ok k.checkpoints

  -- `DeleteOldCheckpoints`
  unfoldable pub delete_old_checkpoints : KvDb D → Result (KvDb D)
  unfolding list_checkpoints
  delete_old_checkpoints k = do
    list ← list_checkpoints k
    ok (
        if ltb 0 k.keep && ltb k.keep (length list)
        then record k { checkpoints = drop (length list - k.keep) k.checkpoints }
        else k)

  -- `CheckpointExists`
  unfoldable pub checkpoint_exists : ℕ → KvDb D → Bool
  unfolding find_checkpoint
  checkpoint_exists n k = elim (find_checkpoint n k.checkpoints) [ none ↦ false | some _ ↦ true ]

module _ {D : Type 0} (s : Storage D) where
  -- `GetCurrentBatch` and `GetCurrentIdx`
  unfoldable pub get_current_batch : D → ℕ
  get_current_batch d = elim (s.stored_batch d) [ none ↦ 0 | some n ↦ n ]

  unfoldable pub get_current_idx : D → ℕ
  get_current_idx d = elim (s.stored_idx d) [ none ↦ reserved_idx | some n ↦ n ]

  -- `SetCurrentIdx`: the field is set before the index is encoded.
  unfoldable pub set_current_idx : ℕ → KvDb D → Result (Unit {0}) × KvDb D
  set_current_idx idx k = elim (idx_bytes idx) [
    | err e ↦ (err e, record k { current_idx = idx })
    | ok _ ↦ (ok tt, record k { current_idx = idx; db = s.put_idx idx k.db })
  ]

  -- `MakeCheckpoint`
  unfoldable pub make_checkpoint : KvDb D → KvDb D
  unfolding put_checkpoint
  make_checkpoint k =
      let n = k.current_batch + 1 in
      let d = s.put_batch n k.db in
      record k {
        current_batch = n;
        db = d;
        checkpoints = put_checkpoint n d k.checkpoints;
        last = if k.no_last then k.last else some d;
      }

  -- The end of `reset` and of `ResetFromSynchronizer`: the content of a checkpoint becomes current.
  unfoldable pub open_content : D → KvDb D → KvDb D
  unfolding get_current_batch get_current_idx
  open_content d k = record k {
    db = d;
    current_batch = get_current_batch d;
    current_idx = get_current_idx d;
  }

  unfoldable pub open_fresh : KvDb D → KvDb D
  open_fresh k = record k { db = s.empty; current_idx = reserved_idx; current_batch = 0 }

  -- `Reset`. On an error the database is left closed, and the result has none.
  unfoldable pub reset : ℕ → KvDb D → Result (KvDb D)
  unfolding list_checkpoints drop_above find_checkpoint open_content open_fresh
  reset n k = do
    list ← list_checkpoints k
    let kept = record k { checkpoints = drop_above n list }
    if n == 0
        then ok (record (open_fresh kept) { last = if k.no_last then k.last else some s.empty })
        else do
          d ← ok_or (find_checkpoint n kept.checkpoints) Error.checkpoint_missing
          ok (record (open_content d kept) { last = if k.no_last then k.last else some d })

  -- `ResetFromSynchronizer`, from the database `sync`
  unfoldable pub reset_from_synchronizer : ℕ → KvDb D → KvDb D → Result (KvDb D)
  unfolding list_checkpoints find_checkpoint open_content open_fresh
  reset_from_synchronizer n sync k = do
    list_checkpoints k
    let cleared = record k { checkpoints = [] }
    if n == 0 then ok (open_fresh cleared) else do
      d ← ok_or (find_checkpoint n sync.checkpoints) Error.checkpoint_missing
      ok (open_content d (record cleared { checkpoints = (n, d) ∷ [] }))
