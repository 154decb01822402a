-- ===== src/CmdbufRes/Tests.antt =====
-- Concrete runs of the manager: a committed shader, with key 5 of type 1, and nothing staged.
use vmwgfx.Prelude.{ℕ, ◌%◌, ◌≡◌, refl, false, [], ◌∷◌, none, some, arith, ◌==◌, if◌then◌else◌, ok}
use vmwgfx.Hashtab.{find_chain}
use vmwgfx.CmdbufRes.{commited, Man, key_of, res_add, res_remove, revert}
use vmwgfx.CmdbufRes.Stage.{entry_at}
use vmwgfx.CmdbufRes.Undo.{IsQuiet, Restores, res_add-revert}
use vmwgfx.CmdbufRes.Removal.{res_remove-revert}
use vmwgfx.CmdbufRes.Readd.{revert-readd}

abbrev low_bits : ℕ → ℕ
low_bits key = key % 16

abbrev key_5 : ℕ
key_5 = 16777221

abbrev one_shader : Man
one_shader = record {
  resources = record {
    size = 16;
    order = 4;
    fill = 1;
    bucket = λ i. if i == 5 then record { key = key_5; owner = 2 } ∷ [] else [];
  };
  list = 2 ∷ [];
  staged = [];
  entries = λ i. record { key = key_5; state = commited; res = 40 };
  live = λ i. i == 2;
  refs = λ r. 1;
}

one_shader-IsQuiet : IsQuiet one_shader
one_shader-IsQuiet = record { table = λ i. ground arith; quiet = refl }

res_add-revert_example :
    (m1 : Man) × (m2 : Man) × (res_add low_bits (some 3) 1 6 41 one_shader ≡ (ok tt, m1))
    × (revert low_bits m1 ≡ some m2)
    × Restores low_bits one_shader m2
    × (m2.live 3 ≡ false)
unfolding find_chain key_of
res_add-revert_example = res_add-revert low_bits one_shader 3 1 6 41 one_shader-IsQuiet refl

res_remove-revert_example :
    (m1 : Man) × (m2 : Man) × (res_remove low_bits 1 5 one_shader ≡ some (ok tt, m1))
    × (revert low_bits m1 ≡ some m2)
    × Restores low_bits one_shader m2
    × ((m2.entries 2).state ≡ commited)
unfolding find_chain key_of
res_remove-revert_example = res_remove-revert low_bits one_shader 2 1 5 one_shader-IsQuiet refl refl

revert-readd_example :
    (m1 m2 m4 : Man) × (res_remove low_bits 1 5 one_shader ≡ some (ok tt, m1))
    × (res_add low_bits (some 3) 1 5 41 m1 ≡ (ok tt, m2))
    × (revert low_bits m2 ≡ some m4)
    × (entry_at low_bits m4 (key_of 1 5) ≡ none)
unfolding find_chain key_of
revert-readd_example =
    revert-readd low_bits one_shader 2 3 1 5 41 one_shader-IsQuiet refl refl (ground arith)
