-- ===== src/Gmrid/Tests.antt =====
-- A concrete run of the manager: 3 of 100 pages are in use, and `ida` has to be asked twice.
use vmwgfx.Prelude.{arith, [], ◌∷◌, List, true, ok, err, eagain}
use vmwgfx.Gmrid.{Man, Round, get_node}
use vmwgfx.Gmrid.Pages.{Counted, get_node-Counted}

abbrev manager : Man
manager = record { ids = 0 ∷ []; max_gmr_ids = 8; max_gmr_pages = 100; used_gmr_pages = 3 }

abbrev rounds : List Round
rounds =
    record { pre_get = true; get_new = err eagain } ∷ record { pre_get = true; get_new = ok 1 } ∷ []

get_node-Counted_example : Counted 40 manager (get_node 40 rounds manager)
get_node-Counted_example =
    get_node-Counted 40 rounds manager (omega arith) (omega arith) (omega arith)
