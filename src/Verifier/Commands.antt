-- ===== src/Verifier/Commands.antt =====
-- The 3D commands of the device (svga3d_reg.h) and the table by which vmwgfx_execbuf.c verifies them.
use vmwgfx.Prelude.{
  ℕ, ◌+◌, Bool, true, false, List, [], ◌∷◌, Option, none, some, ◌==◌, if◌then◌else◌,
}

-- The commands of the table: `SVGA_3D_CMD_...`, in lower case.
pub data Command : Type 0 where
  surface_define surface_destroy surface_copy surface_stretchblt surface_dma context_define
        context_destroy settransform setzrange setrenderstate setrendertarget settexturestate
        setmaterial setlightdata setlightenabled setviewport setclipplane clear present
        shader_define shader_destroy set_shader set_shader_const draw_primitives setscissorrect
        begin_query end_query wait_for_query present_readback blit_surface_to_screen
        surface_define_v2 generate_mipmaps activate_surface deactivate_surface screen_dma
        set_unity_surface_cookie open_context_surface logicops_bitblt logicops_transblt
        logicops_stretchblt logicops_colorfill logicops_alphablend logicops_cleartypeblend
        set_otable_base readback_otable define_gb_mob destroy_gb_mob redefine_gb_mob
        update_gb_mob_mapping define_gb_surface destroy_gb_surface bind_gb_surface
        cond_bind_gb_surface update_gb_image update_gb_surface readback_gb_image readback_gb_surface
        invalidate_gb_image invalidate_gb_surface define_gb_context destroy_gb_context
        bind_gb_context readback_gb_context invalidate_gb_context define_gb_shader bind_gb_shader
        destroy_gb_shader set_otable_base64 begin_gb_query end_gb_query wait_for_gb_query nop
        enable_gart disable_gart map_mob_into_gart unmap_gart_range define_gb_screentarget
        destroy_gb_screentarget bind_gb_screentarget update_gb_screentarget
        readback_gb_image_partial invalidate_gb_image_partial set_gb_shaderconsts_inline :
      Command

-- SVGA_3D_CMD_BASE, and SVGA_3D_CMD_MAX
abbrev pub cmd_base : ℕ
cmd_base = 1040

abbrev pub cmd_max_3d : ℕ
cmd_max_3d = 1142

-- their numbers
unfoldable pub cmd_id : Command → ℕ
cmd_id surface_define = cmd_base + 0
cmd_id surface_destroy = cmd_base + 1
cmd_id surface_copy = cmd_base + 2
cmd_id surface_stretchblt = cmd_base + 3
cmd_id surface_dma = cmd_base + 4
cmd_id context_define = cmd_base + 5
cmd_id context_destroy = cmd_base + 6
cmd_id settransform = cmd_base + 7
cmd_id setzrange = cmd_base + 8
cmd_id setrenderstate = cmd_base + 9
cmd_id setrendertarget = cmd_base + 10
cmd_id settexturestate = cmd_base + 11
cmd_id setmaterial = cmd_base + 12
cmd_id setlightdata = cmd_base + 13
cmd_id setlightenabled = cmd_base + 14
cmd_id setviewport = cmd_base + 15
cmd_id setclipplane = cmd_base + 16
cmd_id clear = cmd_base + 17
cmd_id present = cmd_base + 18
cmd_id shader_define = cmd_base + 19
cmd_id shader_destroy = cmd_base + 20
cmd_id set_shader = cmd_base + 21
cmd_id set_shader_const = cmd_base + 22
cmd_id draw_primitives = cmd_base + 23
cmd_id setscissorrect = cmd_base + 24
cmd_id begin_query = cmd_base + 25
cmd_id end_query = cmd_base + 26
cmd_id wait_for_query = cmd_base + 27
cmd_id present_readback = cmd_base + 28
cmd_id blit_surface_to_screen = cmd_base + 29
cmd_id surface_define_v2 = cmd_base + 30
cmd_id generate_mipmaps = cmd_base + 31
cmd_id activate_surface = cmd_base + 40
cmd_id deactivate_surface = cmd_base + 41
cmd_id screen_dma = 1082
cmd_id set_unity_surface_cookie = 1083
cmd_id open_context_surface = 1084
cmd_id logicops_bitblt = 1085
cmd_id logicops_transblt = 1086
cmd_id logicops_stretchblt = 1087
cmd_id logicops_colorfill = 1088
cmd_id logicops_alphablend = 1089
cmd_id logicops_cleartypeblend = 1090
cmd_id set_otable_base = 1091
cmd_id readback_otable = 1092
cmd_id define_gb_mob = 1093
cmd_id destroy_gb_mob = 1094
cmd_id redefine_gb_mob = 1095
cmd_id update_gb_mob_mapping = 1096
cmd_id define_gb_surface = 1097
cmd_id destroy_gb_surface = 1098
cmd_id bind_gb_surface = 1099
cmd_id cond_bind_gb_surface = 1100
cmd_id update_gb_image = 1101
cmd_id update_gb_surface = 1102
cmd_id readback_gb_image = 1103
cmd_id readback_gb_surface = 1104
cmd_id invalidate_gb_image = 1105
cmd_id invalidate_gb_surface = 1106
cmd_id define_gb_context = 1107
cmd_id destroy_gb_context = 1108
cmd_id bind_gb_context = 1109
cmd_id readback_gb_context = 1110
cmd_id invalidate_gb_context = 1111
cmd_id define_gb_shader = 1112
cmd_id bind_gb_shader = 1114
cmd_id destroy_gb_shader = 1113
cmd_id set_otable_base64 = 1115
cmd_id begin_gb_query = 1116
cmd_id end_gb_query = 1117
cmd_id wait_for_gb_query = 1118
cmd_id nop = 1119
cmd_id enable_gart = 1120
cmd_id disable_gart = 1121
cmd_id map_mob_into_gart = 1122
cmd_id unmap_gart_range = 1123
cmd_id define_gb_screentarget = 1124
cmd_id destroy_gb_screentarget = 1125
cmd_id bind_gb_screentarget = 1126
cmd_id update_gb_screentarget = 1127
cmd_id readback_gb_image_partial = 1128
cmd_id invalidate_gb_image_partial = 1129
cmd_id set_gb_shaderconsts_inline = 1130

-- The functions that check one kind of command each: `vmw_...`. The last checks a command that is not
-- a 3D one.
pub data Checker : Type 0 where
  cmd_begin_gb_query cmd_begin_query cmd_bind_gb_shader cmd_bind_gb_surface
        cmd_blt_surf_screen_check cmd_cid_check cmd_dma cmd_draw cmd_end_gb_query cmd_end_query
        cmd_invalid cmd_invalidate_gb_image cmd_invalidate_gb_surface cmd_ok cmd_present_check
        cmd_readback_gb_image cmd_readback_gb_surface cmd_set_render_target_check cmd_set_shader
        cmd_set_shader_const cmd_shader_define cmd_shader_destroy cmd_stretch_blt_check
        cmd_surface_copy_check cmd_tex_state cmd_update_gb_image cmd_update_gb_surface
        cmd_wait_gb_query cmd_wait_query cmd_check_define_gmrfb :
      Checker

-- `struct vmw_cmd_entry`
pub record Entry : Type 0 where
  pub func : Checker
  pub user_allow : Bool
  pub gb_disable : Bool
  pub gb_enable : Bool

-- VMW_CMD_DEF
abbrev pub cmd_def : (func : Checker) → (user_allow gb_disable gb_enable : Bool) → Entry
cmd_def func user_allow gb_disable gb_enable = record {
  func = func;
  user_allow = user_allow;
  gb_disable = gb_disable;
  gb_enable = gb_enable;
}

-- `vmw_cmd_entries`, where it is initialised
unfoldable pub cmd_entry : Command → Entry
cmd_entry surface_define = cmd_def cmd_invalid false false false
cmd_entry surface_destroy = cmd_def cmd_invalid false false false
cmd_entry surface_copy = cmd_def cmd_surface_copy_check true false false
cmd_entry surface_stretchblt = cmd_def cmd_stretch_blt_check true false false
cmd_entry surface_dma = cmd_def cmd_dma true false false
cmd_entry context_define = cmd_def cmd_invalid false false false
cmd_entry context_destroy = cmd_def cmd_invalid false false false
cmd_entry settransform = cmd_def cmd_cid_check true false false
cmd_entry setzrange = cmd_def cmd_cid_check true false false
cmd_entry setrenderstate = cmd_def cmd_cid_check true false false
cmd_entry setrendertarget = cmd_def cmd_set_render_target_check true false false
cmd_entry settexturestate = cmd_def cmd_tex_state true false false
cmd_entry setmaterial = cmd_def cmd_cid_check true false false
cmd_entry setlightdata = cmd_def cmd_cid_check true false false
cmd_entry setlightenabled = cmd_def cmd_cid_check true false false
cmd_entry setviewport = cmd_def cmd_cid_check true false false
cmd_entry setclipplane = cmd_def cmd_cid_check true false false
cmd_entry clear = cmd_def cmd_cid_check true false false
cmd_entry present = cmd_def cmd_present_check false false false
cmd_entry shader_define = cmd_def cmd_shader_define true false false
cmd_entry shader_destroy = cmd_def cmd_shader_destroy true false false
cmd_entry set_shader = cmd_def cmd_set_shader true false false
cmd_entry set_shader_const = cmd_def cmd_set_shader_const true false false
cmd_entry draw_primitives = cmd_def cmd_draw true false false
cmd_entry setscissorrect = cmd_def cmd_cid_check true false false
cmd_entry begin_query = cmd_def cmd_begin_query true false false
cmd_entry end_query = cmd_def cmd_end_query true false false
cmd_entry wait_for_query = cmd_def cmd_wait_query true false false
cmd_entry present_readback = cmd_def cmd_ok true false false
cmd_entry blit_surface_to_screen = cmd_def cmd_blt_surf_screen_check false false false
cmd_entry surface_define_v2 = cmd_def cmd_invalid false false false
cmd_entry generate_mipmaps = cmd_def cmd_invalid false false false
cmd_entry activate_surface = cmd_def cmd_invalid false false false
cmd_entry deactivate_surface = cmd_def cmd_invalid false false false
cmd_entry screen_dma = cmd_def cmd_invalid false false false
cmd_entry set_unity_surface_cookie = cmd_def cmd_invalid false false false
cmd_entry open_context_surface = cmd_def cmd_invalid false false false
cmd_entry logicops_bitblt = cmd_def cmd_invalid false false false
cmd_entry logicops_transblt = cmd_def cmd_invalid false false false
cmd_entry logicops_stretchblt = cmd_def cmd_invalid false false false
cmd_entry logicops_colorfill = cmd_def cmd_invalid false false false
cmd_entry logicops_alphablend = cmd_def cmd_invalid false false false
cmd_entry logicops_cleartypeblend = cmd_def cmd_invalid false false false
cmd_entry set_otable_base = cmd_def cmd_invalid false false true
cmd_entry readback_otable = cmd_def cmd_invalid false false true
cmd_entry define_gb_mob = cmd_def cmd_invalid false false true
cmd_entry destroy_gb_mob = cmd_def cmd_invalid false false true
cmd_entry redefine_gb_mob = cmd_def cmd_invalid false false true
cmd_entry update_gb_mob_mapping = cmd_def cmd_invalid false false true
cmd_entry define_gb_surface = cmd_def cmd_invalid false false true
cmd_entry destroy_gb_surface = cmd_def cmd_invalid false false true
cmd_entry bind_gb_surface = cmd_def cmd_bind_gb_surface true false true
cmd_entry cond_bind_gb_surface = cmd_def cmd_invalid false false true
cmd_entry update_gb_image = cmd_def cmd_update_gb_image true false true
cmd_entry update_gb_surface = cmd_def cmd_update_gb_surface true false true
cmd_entry readback_gb_image = cmd_def cmd_readback_gb_image true false true
cmd_entry readback_gb_surface = cmd_def cmd_readback_gb_surface true false true
cmd_entry invalidate_gb_image = cmd_def cmd_invalidate_gb_image true false true
cmd_entry invalidate_gb_surface = cmd_def cmd_invalidate_gb_surface true false true
cmd_entry define_gb_context = cmd_def cmd_invalid false false true
cmd_entry destroy_gb_context = cmd_def cmd_invalid false false true
cmd_entry bind_gb_context = cmd_def cmd_invalid false false true
cmd_entry readback_gb_context = cmd_def cmd_invalid false false true
cmd_entry invalidate_gb_context = cmd_def cmd_invalid false false true
cmd_entry define_gb_shader = cmd_def cmd_invalid false false true
cmd_entry bind_gb_shader = cmd_def cmd_bind_gb_shader true false true
cmd_entry destroy_gb_shader = cmd_def cmd_invalid false false true
cmd_entry set_otable_base64 = cmd_def cmd_invalid false false false
cmd_entry begin_gb_query = cmd_def cmd_begin_gb_query true false true
cmd_entry end_gb_query = cmd_def cmd_end_gb_query true false true
cmd_entry wait_for_gb_query = cmd_def cmd_wait_gb_query true false true
cmd_entry nop = cmd_def cmd_ok true false true
cmd_entry enable_gart = cmd_def cmd_invalid false false true
cmd_entry disable_gart = cmd_def cmd_invalid false false true
cmd_entry map_mob_into_gart = cmd_def cmd_invalid false false true
cmd_entry unmap_gart_range = cmd_def cmd_invalid false false true
cmd_entry define_gb_screentarget = cmd_def cmd_invalid false false true
cmd_entry destroy_gb_screentarget = cmd_def cmd_invalid false false true
cmd_entry bind_gb_screentarget = cmd_def cmd_invalid false false true
cmd_entry update_gb_screentarget = cmd_def cmd_invalid false false true
cmd_entry readback_gb_image_partial = cmd_def cmd_invalid false false true
cmd_entry invalidate_gb_image_partial = cmd_def cmd_invalid false false true
cmd_entry set_gb_shaderconsts_inline = cmd_def cmd_cid_check true false true

abbrev pub commands : List Command
commands =
    surface_define ∷ surface_destroy ∷ surface_copy ∷ surface_stretchblt ∷ surface_dma
    ∷ context_define ∷ context_destroy ∷ settransform ∷ setzrange ∷ setrenderstate ∷ setrendertarget
    ∷ settexturestate ∷ setmaterial ∷ setlightdata ∷ setlightenabled ∷ setviewport ∷ setclipplane
    ∷ clear ∷ present ∷ shader_define ∷ shader_destroy ∷ set_shader ∷ set_shader_const
    ∷ draw_primitives ∷ setscissorrect ∷ begin_query ∷ end_query ∷ wait_for_query ∷ present_readback
    ∷ blit_surface_to_screen ∷ surface_define_v2 ∷ generate_mipmaps ∷ activate_surface
    ∷ deactivate_surface ∷ screen_dma ∷ set_unity_surface_cookie ∷ open_context_surface
    ∷ logicops_bitblt ∷ logicops_transblt ∷ logicops_stretchblt ∷ logicops_colorfill
    ∷ logicops_alphablend ∷ logicops_cleartypeblend ∷ set_otable_base ∷ readback_otable
    ∷ define_gb_mob ∷ destroy_gb_mob ∷ redefine_gb_mob ∷ update_gb_mob_mapping ∷ define_gb_surface
    ∷ destroy_gb_surface ∷ bind_gb_surface ∷ cond_bind_gb_surface ∷ update_gb_image
    ∷ update_gb_surface ∷ readback_gb_image ∷ readback_gb_surface ∷ invalidate_gb_image
    ∷ invalidate_gb_surface ∷ define_gb_context ∷ destroy_gb_context ∷ bind_gb_context
    ∷ readback_gb_context ∷ invalidate_gb_context ∷ define_gb_shader ∷ bind_gb_shader
    ∷ destroy_gb_shader ∷ set_otable_base64 ∷ begin_gb_query ∷ end_gb_query ∷ wait_for_gb_query
    ∷ nop ∷ enable_gart ∷ disable_gart ∷ map_mob_into_gart ∷ unmap_gart_range
    ∷ define_gb_screentarget ∷ destroy_gb_screentarget ∷ bind_gb_screentarget
    ∷ update_gb_screentarget ∷ readback_gb_image_partial ∷ invalidate_gb_image_partial
    ∷ set_gb_shaderconsts_inline ∷ []

unfoldable pub find_command : (id : ℕ) → List Command → Option Command
find_command id [] = none
find_command id (c ∷ cs) = if cmd_id c == id then some c else find_command id cs

-- `vmw_cmd_entries[index]`; `none` where nothing is initialised, and the entry is zero
unfoldable pub cmd_entries : (index : ℕ) → Option Entry
cmd_entries index = elim (find_command (cmd_base + index) commands) [
  | none ↦ none
  | some c ↦ some (cmd_entry c)
]
