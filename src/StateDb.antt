-- ===== src/StateDb.antt =====
-- The state database (db/statedb/statedb.go and db/statedb/utils.go): the accounts, the index of
-- accounts by address and key, and the counters of the key-value database under it.
pub mod Tree
pub mod AddressIndex
use han_hermez_node.Prelude
use han_hermez_node.Exec.{Exec, lift, reads, gets, modify, pure, raise, zoom, ◌>>=◌, ◌>>◌}
use han_hermez_node.Crypto.{Crypto}
use han_hermez_node.KvDb.{Storage, KvDb, make_checkpoint, set_current_idx, reset}
use han_hermez_node.Common.Ids.{idx_bytes}
use han_hermez_node.Common.Account.{Account, empty_addr, empty_bjj_comp}
use Tree.{TreeDb, get_account_in_tree, create_account_in_tree, update_account_in_tree}
use han_hermez_node.Prelude.{
  ℕ, ◌+◌, ◌*◌, ◌^◌, Bool, false, not, ◌&&◌, Option, none, some, List, [], ◌∷◌, leb, ◌==◌,
  if◌then◌else◌, Error, Result, ok, err, ok_or, lookup, insert,
}

-- The types with `zki == nil` and no circuit inputs to collect. The BatchBuilder's type is not
-- modelled.
pub data TypeStateDb : Type 0 where
  synchronizer tx_selector : TypeStateDb

-- What is stored in Pebble: the accounts, `PrefixKeyAddr` and `PrefixKeyAddrBJJ`, and the counters.
pub record Content : Type 0 where
  pub tree : TreeDb
  pub addr_idx : List (ℕ × ℕ)
  pub addr_bjj_idx : List (ℕ × ℕ)
  pub stored_idx : Option ℕ
  pub stored_batch : Option ℕ

pub record StateDb : Type 0 where
  pub typ : TypeStateDb
  pub kv : KvDb Content

-- A fresh storage. The tree of a TxSelector is nil.
abbrev pub empty_content : TypeStateDb → Content
empty_content typ = record {
  tree = record {
    idx_leaf = [];
    leaf_bytes = [];
    mt = elim typ [ synchronizer ↦ some [] | tx_selector ↦ none ];
  };
  addr_idx = [];
  addr_bjj_idx = [];
  stored_idx = none;
  stored_batch = none;
}

abbrev pub content_storage : TypeStateDb → Storage Content
content_storage typ = record {
  empty = empty_content typ;
  stored_batch = λ d. d.stored_batch;
  put_batch = λ n d. record d { stored_batch = some n };
  stored_idx = λ d. d.stored_idx;
  put_idx = λ n d. record d { stored_idx = some n };
}

abbrev pub tree_of : StateDb → TreeDb
tree_of s = s.kv.db.tree

abbrev pub set_tree : TreeDb → StateDb → StateDb
set_tree t s = record s { kv = record s.kv { db = record s.kv.db { tree = t } } }

-- `concatEthAddrTokenID` and `concatEthAddrBJJTokenID`, as the numbers of the bytes.
unfoldable pub concat_eth_addr_token_id : ℕ → ℕ → ℕ
concat_eth_addr_token_id addr token_id = addr * 2 ^ 32 + token_id

unfoldable pub concat_eth_addr_bjj_token_id : ℕ → ℕ → ℕ → ℕ
concat_eth_addr_bjj_token_id addr pk token_id = (addr * 2 ^ 256 + pk) * 2 ^ 32 + token_id

-- `GetIdxByEthAddr`. Its error is a new one, whose text alone is that of `ErrIdxNotFound`.
unfoldable pub get_idx_by_eth_addr : ℕ → ℕ → StateDb → Result ℕ
get_idx_by_eth_addr addr token_id s =
    ok_or (lookup (concat_eth_addr_token_id addr token_id) s.kv.db.addr_idx)
      Error.eth_addr_not_found

-- `GetIdxByEthAddrBJJ`
unfoldable pub get_idx_by_eth_addr_bjj : ℕ → ℕ → ℕ → StateDb → Result ℕ
unfolding get_idx_by_eth_addr
get_idx_by_eth_addr_bjj addr pk token_id s =
    if not (addr == empty_addr) && pk == empty_bjj_comp
    then get_idx_by_eth_addr addr token_id s
    else if not (addr == empty_addr) && not (pk == empty_bjj_comp)
    then ok_or (lookup (concat_eth_addr_bjj_token_id addr pk token_id) s.kv.db.addr_bjj_idx)
        Error.idx_not_found
    else err Error.get_idx_no_case

-- The two `Put`s of `setIdxByEthAddrBJJ`
unfoldable pub put_idx_keys : ℕ → ℕ → ℕ → ℕ → StateDb → StateDb
put_idx_keys idx addr pk token_id s =
    let db = s.kv.db in
    record s {
      kv = record s.kv {
        db = record db {
          addr_bjj_idx = insert (concat_eth_addr_bjj_token_id addr pk token_id) idx db.addr_bjj_idx;
          addr_idx = insert (concat_eth_addr_token_id addr token_id) idx db.addr_idx;
        };
      };
    }

-- `setIdxByEthAddrBJJ`
unfoldable pub set_idx_by_eth_addr_bjj : ℕ → ℕ → ℕ → ℕ → Exec StateDb (Unit {0})
set_idx_by_eth_addr_bjj idx addr pk token_id s =
    let known : Bool = elim (get_idx_by_eth_addr_bjj addr pk token_id s) [
      | ok old ↦ leb old idx
      | err _ ↦ false
    ] in
    if known then (ok tt, s) else elim (idx_bytes idx) [
      | err e ↦ (err e, s)
      | ok _ ↦ (ok tt, put_idx_keys idx addr pk token_id s)
    ]

module _ (c : Crypto) where
  -- `GetAccount`
  unfoldable pub get_account : ℕ → StateDb → Result Account
  get_account idx s = get_account_in_tree c idx (tree_of s)

  -- `CreateAccount`
  unfoldable pub create_account : ℕ → Account → Exec StateDb (Unit {0})
  create_account idx account = do
    zoom tree_of set_tree (create_account_in_tree c idx account)
    set_idx_by_eth_addr_bjj idx account.eth_addr account.bjj account.token_id

  -- `UpdateAccount`
  unfoldable pub update_account : ℕ → Account → Exec StateDb (Unit {0})
  update_account idx account = zoom tree_of set_tree (update_account_in_tree c idx account)

  -- `GetTokenIDsFromIdxs`: a map from the token to the last index that has it.
  unfoldable pub get_token_ids_from : List (ℕ × ℕ) → List ℕ → StateDb → Result (List (ℕ × ℕ))
  unfolding get_account
  get_token_ids_from m [] s = ok m
  get_token_ids_from m (idx ∷ idxs) s =
      Prelude.◌>>=◌ (get_account idx s) λ a. get_token_ids_from (insert a.token_id idx m) idxs s

  unfoldable pub get_token_ids_from_idxs : List ℕ → StateDb → Result (List (ℕ × ℕ))
  get_token_ids_from_idxs = get_token_ids_from []

-- `SetCurrentIdx` and `MakeCheckpoint` of the StateDB
unfoldable pub state_set_current_idx : ℕ → Exec StateDb (Unit {0})
state_set_current_idx idx s =
    let (r, kv) = set_current_idx (content_storage s.typ) idx s.kv in (r, record s { kv = kv })

unfoldable pub state_make_checkpoint : StateDb → StateDb
state_make_checkpoint s = record s { kv = make_checkpoint (content_storage s.typ) s.kv }

-- `Reset` of the StateDB and of a LocalStateDB that does not read the Synchronizer's.
unfoldable pub state_reset : ℕ → StateDb → Result StateDb
state_reset n s =
    Prelude.◌>>=◌ (reset (content_storage s.typ) n s.kv) λ kv. ok (record s { kv = kv })
