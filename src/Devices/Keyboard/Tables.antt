-- ===== src/Devices/Keyboard/Tables.antt =====
-- The tables of src/kernel/devices/PS2KeyboardDevice.cpp: scancodes to keys, keys to characters.
use ow_os.Common.{ℕ, List, [], ◌∷◌, ◌++◌, replicate}
use ow_os.Devices.KeyCode.{
  KeyCode, key_none, key_escape, key_1, key_2, key_3, key_4, key_5, key_6, key_7, key_8, key_9,
  key_0, key_minus, key_equals, key_backspace, key_tab, key_q, key_w, key_e, key_r, key_t, key_y,
  key_u, key_i, key_o, key_p, key_left_bracket, key_right_bracket, key_return, key_left_control,
  key_a, key_s, key_d, key_f, key_g, key_h, key_j, key_k, key_l, key_semicolon, key_apostrophe,
  key_back_tick, key_left_shift, key_backslash, key_z, key_x, key_c, key_v, key_b, key_n, key_m,
  key_comma, key_period, key_slash, key_right_shift, key_asterisk, key_left_alt, key_space,
  key_caps_lock, key_f1, key_f2, key_f3, key_f4, key_f5, key_f6, key_f7, key_f8, key_f9, key_f10,
  key_num_lock, key_scroll_lock, key_home, key_up, key_page_up, key_left, key_right, key_plus,
  key_end, key_down, key_page_down, key_insert, key_delete, key_f11, key_f12, key_super, key_menu,
}

-- `Key_Max`, the length of the tables of characters; what they do not list is 0.
abbrev pub key_max_index : ℕ
key_max_index = 107

abbrev pub default_keycode_map : List ℕ
default_keycode_map =
    (0 ∷ 27 ∷ 49 ∷ 50 ∷ 51 ∷ 52 ∷ 53 ∷ 54 ∷ 55 ∷ 56 ∷ 57 ∷ 48 ∷ 45 ∷ 61 ∷ 127 ∷ 0 ∷ 113 ∷ 119 ∷ 101
      ∷ 114 ∷ 116 ∷ 121 ∷ 117 ∷ 105 ∷ 111 ∷ 112 ∷ 91 ∷ 93 ∷ 10 ∷ 0 ∷ 97 ∷ 115 ∷ 100 ∷ 102 ∷ 103
      ∷ 104 ∷ 106 ∷ 107 ∷ 108 ∷ 59 ∷ 39 ∷ 96 ∷ 0 ∷ 92 ∷ 122 ∷ 120 ∷ 99 ∷ 118 ∷ 98 ∷ 110 ∷ 109 ∷ 44
      ∷ 46 ∷ 47 ∷ 0 ∷ 0 ∷ 0 ∷ 32 ∷ 0 ∷ [])
    ++ replicate 48 0

abbrev pub default_keycode_map_shifted : List ℕ
default_keycode_map_shifted =
    (0 ∷ 27 ∷ 33 ∷ 64 ∷ 35 ∷ 36 ∷ 37 ∷ 94 ∷ 38 ∷ 42 ∷ 40 ∷ 41 ∷ 95 ∷ 43 ∷ 127 ∷ 0 ∷ 81 ∷ 87 ∷ 69
      ∷ 82 ∷ 84 ∷ 89 ∷ 85 ∷ 73 ∷ 79 ∷ 80 ∷ 123 ∷ 125 ∷ 10 ∷ 0 ∷ 65 ∷ 83 ∷ 68 ∷ 70 ∷ 71 ∷ 72 ∷ 74
      ∷ 75 ∷ 76 ∷ 58 ∷ 34 ∷ 126 ∷ 0 ∷ 124 ∷ 90 ∷ 88 ∷ 67 ∷ 86 ∷ 66 ∷ 78 ∷ 77 ∷ 60 ∷ 62 ∷ 63 ∷ 0 ∷ 0
      ∷ 0 ∷ 32 ∷ 0 ∷ [])
    ++ replicate 48 0

abbrev pub default_scancode_map : List KeyCode
default_scancode_map =
    key_none ∷ key_escape ∷ key_1 ∷ key_2 ∷ key_3 ∷ key_4 ∷ key_5 ∷ key_6 ∷ key_7 ∷ key_8 ∷ key_9
    ∷ key_0 ∷ key_minus ∷ key_equals ∷ key_backspace ∷ key_tab ∷ key_q ∷ key_w ∷ key_e ∷ key_r
    ∷ key_t ∷ key_y ∷ key_u ∷ key_i ∷ key_o ∷ key_p ∷ key_left_bracket ∷ key_right_bracket
    ∷ key_return ∷ key_left_control ∷ key_a ∷ key_s ∷ key_d ∷ key_f ∷ key_g ∷ key_h ∷ key_j ∷ key_k
    ∷ key_l ∷ key_semicolon ∷ key_apostrophe ∷ key_back_tick ∷ key_left_shift ∷ key_backslash
    ∷ key_z ∷ key_x ∷ key_c ∷ key_v ∷ key_b ∷ key_n ∷ key_m ∷ key_comma ∷ key_period ∷ key_slash
    ∷ key_right_shift ∷ key_asterisk ∷ key_left_alt ∷ key_space ∷ key_caps_lock ∷ key_f1 ∷ key_f2
    ∷ key_f3 ∷ key_f4 ∷ key_f5 ∷ key_f6 ∷ key_f7 ∷ key_f8 ∷ key_f9 ∷ key_f10 ∷ key_num_lock
    ∷ key_scroll_lock ∷ key_home ∷ key_up ∷ key_page_up ∷ key_left ∷ key_none ∷ key_right ∷ key_plus
    ∷ key_end ∷ key_down ∷ key_page_down ∷ key_insert ∷ key_delete ∷ key_none ∷ key_none ∷ key_none
    ∷ key_f11 ∷ key_f12 ∷ key_none ∷ key_none ∷ key_super ∷ key_none ∷ key_menu ∷ key_none
    ∷ key_none ∷ key_none ∷ key_none ∷ key_none ∷ key_none ∷ key_none ∷ key_none ∷ key_none
    ∷ key_none ∷ key_none ∷ key_none ∷ key_none ∷ key_none ∷ key_none ∷ key_none ∷ key_none
    ∷ key_none ∷ key_none ∷ key_none ∷ key_none ∷ key_none ∷ key_none ∷ key_none ∷ key_none
    ∷ key_none ∷ key_none ∷ key_none ∷ key_none ∷ key_none ∷ key_none ∷ key_none ∷ key_none
    ∷ key_none ∷ key_none ∷ []

abbrev pub default_e0_scancode_map : List KeyCode
default_e0_scancode_map =
    key_none ∷ key_none ∷ key_none ∷ key_none ∷ key_none ∷ key_none ∷ key_none ∷ key_none ∷ key_none
    ∷ key_none ∷ key_none ∷ key_none ∷ key_none ∷ key_none ∷ key_none ∷ key_none ∷ key_none
    ∷ key_none ∷ key_none ∷ key_none ∷ key_none ∷ key_none ∷ key_none ∷ key_none ∷ key_none
    ∷ key_none ∷ key_none ∷ key_none ∷ key_none ∷ key_none ∷ key_none ∷ key_none ∷ key_none
    ∷ key_none ∷ key_none ∷ key_none ∷ key_none ∷ key_none ∷ key_none ∷ key_none ∷ key_none
    ∷ key_none ∷ key_none ∷ key_none ∷ key_none ∷ key_none ∷ key_none ∷ key_none ∷ key_none
    ∷ key_none ∷ key_none ∷ key_none ∷ key_none ∷ key_none ∷ key_none ∷ key_none ∷ key_none
    ∷ key_none ∷ key_none ∷ key_none ∷ key_none ∷ key_none ∷ key_none ∷ key_none ∷ key_none
    ∷ key_none ∷ key_none ∷ key_none ∷ key_none ∷ key_none ∷ key_none ∷ key_none ∷ key_up ∷ key_none
    ∷ key_none ∷ key_left ∷ key_none ∷ key_right ∷ key_none ∷ key_none ∷ key_down ∷ key_none
    ∷ key_none ∷ key_none ∷ key_none ∷ key_none ∷ key_none ∷ key_none ∷ key_none ∷ key_none
    ∷ key_none ∷ key_none ∷ key_none ∷ key_none ∷ key_none ∷ key_none ∷ key_none ∷ key_none
    ∷ key_none ∷ key_none ∷ key_none ∷ key_none ∷ key_none ∷ key_none ∷ key_none ∷ key_none
    ∷ key_none ∷ key_none ∷ key_none ∷ key_none ∷ key_none ∷ key_none ∷ key_none ∷ key_none
    ∷ key_none ∷ key_none ∷ key_none ∷ key_none ∷ key_none ∷ key_none ∷ key_none ∷ key_none
    ∷ key_none ∷ key_none ∷ key_none ∷ key_none ∷ key_none ∷ key_none ∷ []
