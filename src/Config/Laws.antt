-- ===== src/Config/Laws.antt =====
-- The getters and setters of pkg/confile/confile.go that check what they give and take.
use de_oss.Base.{◌≡◌, ◌↔◌, ◌<◌, true, String, arith}
use de_oss.Base.Word.{two_64}
use de_oss.Config.{Confile, Host, crashed, unknown, set_workspace}

-- The integers are 64-bit patterns.
pub record HasWords (c : Confile) : Type 0 where
  pub cache_size : c.cache_size < two_64
  pub expiration : c.expiration < two_64
  pub max_node_num : c.max_node_num < two_64
  pub max_ttl : c.max_ttl < two_64
  pub refresh_time : c.refresh_time < two_64

-- `SetWorkspace` panics exactly if the directory is not there and can be made.
pub set_workspace-crashed_iff :
    (H : Host) (workspace : String) (c : Confile) (w : H.State)
    → ((set_workspace H workspace c w).0 ≡ crashed)
      ↔ ((H.stat workspace w ≡ unknown) × ((H.mkdir_all workspace w).0 ≡ true))
unfolding set_workspace
set_workspace-crashed_iff H workspace c w =
    ((λ e. (ground (arith, e), ground (arith, e))), (λ e. ground (arith, e)))
