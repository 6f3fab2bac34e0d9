-- ===== src/StateDb/AddressIndex.antt =====
-- The index of accounts by address and key (`setIdxByEthAddrBJJ`, `GetIdxByEthAddrBJJ` of
-- db/statedb/utils.go).
use han_hermez_node.Common.Ids.{idx_bytes}
use han_hermez_node.Common.Account.{empty_addr}
use han_hermez_node.StateDb.{
  StateDb, get_idx_by_eth_addr, get_idx_by_eth_addr_bjj, put_idx_keys, set_idx_by_eth_addr_bjj,
  concat_eth_addr_token_id, concat_eth_addr_bjj_token_id,
}
use han_hermez_node.Prelude.{◌<◌, Error, err, ℕ, ◌≤◌, ◌≡◌, arith, ok, Result-cases, lookup-insert}

module _ (addr pk token : ℕ) (s : StateDb) (named : ¬ (addr ≡ empty_addr)) where
  -- After both writes the index is found, whether or not the key is asked for.
  get_idx-put_idx_keys :
      (idx : ℕ) → get_idx_by_eth_addr_bjj addr pk token (put_idx_keys idx addr pk token s) ≡ ok idx
  unfolding get_idx_by_eth_addr_bjj get_idx_by_eth_addr put_idx_keys
  get_idx-put_idx_keys idx =
      let k : ℕ = concat_eth_addr_token_id addr token in
      let k' : ℕ = concat_eth_addr_bjj_token_id addr pk token in
      let here = lookup-insert k k idx s.kv.db.addr_idx in
      let here' = lookup-insert k' k' idx s.kv.db.addr_bjj_idx in ground (arith, here, here')

  get_idx_by_eth_addr-put_idx_keys :
      (idx : ℕ) → get_idx_by_eth_addr addr token (put_idx_keys idx addr pk token s) ≡ ok idx
  unfolding get_idx_by_eth_addr put_idx_keys
  get_idx_by_eth_addr-put_idx_keys idx =
      let k : ℕ = concat_eth_addr_token_id addr token in
      let here = lookup-insert k k idx s.kv.db.addr_idx in ground (arith, here)

  -- After an index was set, successfully and for an address that is not empty: where the address and key
  -- had no index, they lead to the one that was set; where they had one, they lead to the smaller of the
  -- two. In the first case and where the old index was larger, the address alone leads to the index that
  -- was set as well, also where another key of the address had a smaller one; so the index by the address
  -- alone is not always the smallest.
  pub get_idx-set_idx :
      (idx : ℕ)
      → (set_idx_by_eth_addr_bjj idx addr pk token s).0 ≡ ok tt
      → let after = (set_idx_by_eth_addr_bjj idx addr pk token s).1 in
        ((x : Error)
          → get_idx_by_eth_addr_bjj addr pk token s ≡ err x
          → (get_idx_by_eth_addr_bjj addr pk token after ≡ ok idx)
            × (get_idx_by_eth_addr addr token after ≡ ok idx))
        × ((old : ℕ)
            → get_idx_by_eth_addr_bjj addr pk token s ≡ ok old
            → (old ≤ idx → get_idx_by_eth_addr_bjj addr pk token after ≡ ok old)
              × (idx < old
                  → (get_idx_by_eth_addr_bjj addr pk token after ≡ ok idx)
                    × (get_idx_by_eth_addr addr token after ≡ ok idx)))
  unfolding set_idx_by_eth_addr_bjj
  get_idx-set_idx idx done =
      let written : (set_idx_by_eth_addr_bjj idx addr pk token s).1
            ≡ put_idx_keys idx addr pk token s
          → (get_idx_by_eth_addr_bjj addr pk token (set_idx_by_eth_addr_bjj idx addr pk token s).1
              ≡ ok idx)
            × (get_idx_by_eth_addr addr token (set_idx_by_eth_addr_bjj idx addr pk token s).1
                ≡ ok idx) =
        λ is. (rw is (get_idx-put_idx_keys idx), rw is (get_idx_by_eth_addr-put_idx_keys idx)) in
      (
        λ x e. written (ground (arith, e, Result-cases (idx_bytes idx))),
        λ old e. (
          λ earlier.
              let is : (set_idx_by_eth_addr_bjj idx addr pk token s).1 ≡ s =
                ground (arith, e, earlier) in
              rw is e,
          λ later. written (ground (arith, e, later, Result-cases (idx_bytes idx))),
        ),
      )
