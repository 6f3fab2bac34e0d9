-- ===== src/Tests/Storage.antt =====
-- Writes to a small account storage.
use han_hermez_node.Bytes.{be, of_be}
use han_hermez_node.Common.Ids.{idx_bytes, nonce_bytes, token_id_bytes}
use han_hermez_node.Common.Account.{
  Account, hash_value, account_big_ints, account_bytes, account_layout,
}
use han_hermez_node.StateDb.Tree.{
  TreeDb, create_account_in_tree, update_account_in_tree, put_leaf, write_mt,
}
use han_hermez_node.StateDb.Tree.ReadBack.{
  ReadsBack, FitsWords, update_account_in_tree-ReadsBack, create_account_in_tree-ReadsBack,
}
use han_hermez_node.Tests.Instance.{toy_crypto, toy_laws, toy_poseidon}
use han_hermez_node.Tests.Processor.{empty_tree}
use han_hermez_node.Tests.Encoding.{some_account}
use han_hermez_node.Prelude.{◌≡◌, refl, none, arith, ok, lookup, insert}

some_account_fits : FitsWords toy_crypto some_account
some_account_fits = record { token_id = omega arith; bjj = omega arith; eth_addr = omega arith }

created : (create_account_in_tree toy_crypto 256 some_account empty_tree).0 ≡ ok tt
unfolding create_account_in_tree write_mt put_leaf hash_value account_big_ints account_bytes
    account_layout idx_bytes nonce_bytes token_id_bytes be of_be toy_poseidon lookup insert
created = refl

abbrev filled : TreeDb
filled = (create_account_in_tree toy_crypto 256 some_account empty_tree).1

create_account_in_tree-ReadsBack_example :
    (lookup 256 empty_tree.idx_leaf ≡ none)
    × ReadsBack toy_crypto 256 some_account empty_tree filled
create_account_in_tree-ReadsBack_example =
    create_account_in_tree-ReadsBack toy_crypto toy_laws 256 some_account empty_tree
      (record { resolve = tt }) some_account_fits created

abbrev richer : Account
richer = record some_account { balance = 5000; nonce = 5 }

updated : (update_account_in_tree toy_crypto 256 richer filled).0 ≡ ok tt
unfolding create_account_in_tree update_account_in_tree write_mt put_leaf hash_value
    account_big_ints account_bytes account_layout idx_bytes nonce_bytes token_id_bytes be of_be
    toy_poseidon lookup insert
updated = refl

update_account_in_tree-ReadsBack_example :
    ReadsBack toy_crypto 256 richer filled (update_account_in_tree toy_crypto 256 richer filled).1
update_account_in_tree-ReadsBack_example =
    update_account_in_tree-ReadsBack toy_crypto toy_laws 256 richer filled
      create_account_in_tree-ReadsBack_example.1.valid
      (record { token_id = omega arith; bjj = omega arith; eth_addr = omega arith }) updated
