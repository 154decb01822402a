-- ===== src/Gmrid/Pages.antt =====
-- The limits on ids and pages, where the device has a limit on pages.
use vmwgfx.Prelude.{ℕ, ◌+◌, ◌≤◌, ◌<◌, ◌≡◌, List, [], ◌∷◌, arith, u32_mod}
use vmwgfx.Gmrid.{
  Man, Round, Got, region, no_region, failed, looping, remove_id, give_back, get_loop, get_node,
  put_node,
}

-- The same manager.
pub record Same (g h : Man) : Type 0 where
  pub ids : h.ids ≡ g.ids
  pub max_gmr_ids : h.max_gmr_ids ≡ g.max_gmr_ids
  pub max_gmr_pages : h.max_gmr_pages ≡ g.max_gmr_pages
  pub used_gmr_pages : h.used_gmr_pages ≡ g.used_gmr_pages

-- What a call leaves behind, for each of its results.
abbrev pub Counted : (num_pages : ℕ) → Man → Got → Type 0
Counted num_pages g (region m h) =
    (m.start < g.max_gmr_ids)
    × (m.num_pages ≡ num_pages)
    × (h.ids ≡ m.start ∷ g.ids)
    × (h.used_gmr_pages ≡ g.used_gmr_pages + num_pages)
    × (h.used_gmr_pages ≤ h.max_gmr_pages)
    × Same g (put_node m h)
Counted num_pages g (no_region h) = Same g h
Counted num_pages g (failed e h) = Same g h
Counted num_pages g looping = Unit

get_loop-Counted :
    (num_pages : ℕ) (rs : List Round) (g h : Man)
    → g.used_gmr_pages + num_pages < u32_mod
    → g.used_gmr_pages + num_pages ≤ g.max_gmr_pages
    → h ≡ record g { used_gmr_pages = g.used_gmr_pages + num_pages }
    → Counted num_pages g (get_loop num_pages rs h)
unfolding get_loop give_back put_node remove_id
get_loop-Counted num_pages [] g h small fits e = tt
get_loop-Counted num_pages (r ∷ rs) g h small fits e =
    ground (arith, get_loop-Counted num_pages rs g h small fits e)

-- Where there is a limit on pages, a region is given only while the pages in use, with those of the
-- region, keep to the limit, and its id is below the limit on ids; the pages are counted, and
-- giving the region back restores the manager. A call that gives no region, for whatever reason,
-- leaves the manager as it was. It supposes that the limit is not passed before, and that the limit and
-- the pages asked for come to less than 2 ^ 32: the count has 32 bits, and a larger request wraps.
pub get_node-Counted :
    (num_pages : ℕ) (rs : List Round) (g : Man)
    → 0 < g.max_gmr_pages
    → g.used_gmr_pages ≤ g.max_gmr_pages
    → g.max_gmr_pages + num_pages < u32_mod
    → Counted num_pages g (get_node num_pages rs g)
unfolding get_node give_back
get_node-Counted num_pages rs g limited fits small = ground (
  arith,
  get_loop-Counted num_pages rs g (record g { used_gmr_pages = g.used_gmr_pages + num_pages }),
)
