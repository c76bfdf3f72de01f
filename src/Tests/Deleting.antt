-- ===== src/Tests/Deleting.antt =====
-- Deleting a file: node/delHandle.go.
use de_oss.Base.{◌≡◌, refl, string_eq, [], true, none}
use de_oss.Access.Library.{accepted}
use de_oss.Access.Signature.{verify_account_signature}
use de_oss.Chain.{PublicKey}
use de_oss.Http.{Body}
use de_oss.Delete.{DeleteRequest, DeleteFaults, Store, del_handle}
use de_oss.Delete.Exact.{IsDeleted, del_handle-IsDeleted}
use de_oss.Tests.Sample.{chain, crypto, server, hash}

abbrev request : DeleteRequest
request = record { account = "alice"; message = "m"; signature = "good"; name = hash }

abbrev store : Store chain.State (Unit {0})
store = record { server = server; db = [] }

abbrev all_removed : DeleteFaults
all_removed = record { removal = λ _. none; remove_track = true; delete_db = true }

del_handle-IsDeleted_example :
    ((pkey : PublicKey) × (verify_account_signature crypto "alice" "m" "good" ≡ accepted pkey))
    × IsDeleted chain crypto all_removed request hash store
        (del_handle chain crypto all_removed request store).1
unfolding del_handle string_eq
del_handle-IsDeleted_example =
    del_handle-IsDeleted chain crypto all_removed request hash store (Body.text "tx") refl
