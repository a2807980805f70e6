-- ===== src/Devices/KeyCode.antt =====
-- src/kernel/include/devices/KeyCode.hpp: the enumeration of keys, `key_none` being 0.
use ow_os.Common.{ℕ}

pub data KeyCode : Type 0 where
  key_none key_escape key_1 key_2 key_3 key_4 key_5 key_6 key_7 key_8 key_9 key_0 key_minus :
      KeyCode
  key_equals key_backspace key_tab key_q key_w key_e key_r key_t key_y key_u key_i key_o key_p :
      KeyCode
  key_left_bracket key_right_bracket key_return key_left_control key_a key_s key_d key_f key_g :
      KeyCode
  key_h key_j key_k key_l key_semicolon key_apostrophe key_back_tick key_left_shift : KeyCode
  key_backslash key_z key_x key_c key_v key_b key_n key_m key_comma key_period key_slash : KeyCode
  key_right_shift key_asterisk key_left_alt key_space key_caps_lock key_f1 key_f2 key_f3 key_f4 :
      KeyCode
  key_f5 key_f6 key_f7 key_f8 key_f9 key_f10 key_num_lock key_scroll_lock key_home key_up : KeyCode
  key_page_up key_left key_right key_plus key_end key_down key_page_down key_insert key_delete :
      KeyCode
  key_f11 key_f12 key_right_control key_super key_menu key_right_alt key_exclamation_point : KeyCode
  key_at_sign key_hashtag key_dollar key_percent key_circumflex key_ampersand key_underscore :
      KeyCode
  key_left_parenthesis key_right_parenthesis key_left_brace key_right_brace key_less_than : KeyCode
  key_greater_than key_question_mark key_pipe key_tilde key_colon key_double_quote key_max : KeyCode

-- The value of the enumerator.
abbrev pub index : KeyCode → ℕ
index key_none = 0
index key_escape = 1
index key_1 = 2
index key_2 = 3
index key_3 = 4
index key_4 = 5
index key_5 = 6
index key_6 = 7
index key_7 = 8
index key_8 = 9
index key_9 = 10
index key_0 = 11
index key_minus = 12
index key_equals = 13
index key_backspace = 14
index key_tab = 15
index key_q = 16
index key_w = 17
index key_e = 18
index key_r = 19
index key_t = 20
index key_y = 21
index key_u = 22
index key_i = 23
index key_o = 24
index key_p = 25
index key_left_bracket = 26
index key_right_bracket = 27
index key_return = 28
index key_left_control = 29
index key_a = 30
index key_s = 31
index key_d = 32
index key_f = 33
index key_g = 34
index key_h = 35
index key_j = 36
index key_k = 37
index key_l = 38
index key_semicolon = 39
index key_apostrophe = 40
index key_back_tick = 41
index key_left_shift = 42
index key_backslash = 43
index key_z = 44
index key_x = 45
index key_c = 46
index key_v = 47
index key_b = 48
index key_n = 49
index key_m = 50
index key_comma = 51
index key_period = 52
index key_slash = 53
index key_right_shift = 54
index key_asterisk = 55
index key_left_alt = 56
index key_space = 57
index key_caps_lock = 58
index key_f1 = 59
index key_f2 = 60
index key_f3 = 61
index key_f4 = 62
index key_f5 = 63
index key_f6 = 64
index key_f7 = 65
index key_f8 = 66
index key_f9 = 67
index key_f10 = 68
index key_num_lock = 69
index key_scroll_lock = 70
index key_home = 71
index key_up = 72
index key_page_up = 73
index key_left = 74
index key_right = 75
index key_plus = 76
index key_end = 77
index key_down = 78
index key_page_down = 79
index key_insert = 80
index key_delete = 81
index key_f11 = 82
index key_f12 = 83
index key_right_control = 84
index key_super = 85
index key_menu = 86
index key_right_alt = 87
index key_exclamation_point = 88
index key_at_sign = 89
index key_hashtag = 90
index key_dollar = 91
index key_percent = 92
index key_circumflex = 93
index key_ampersand = 94
index key_underscore = 95
index key_left_parenthesis = 96
index key_right_parenthesis = 97
index key_left_brace = 98
index key_right_brace = 99
index key_less_than = 100
index key_greater_than = 101
index key_question_mark = 102
index key_pipe = 103
index key_tilde = 104
index key_colon = 105
index key_double_quote = 106
index key_max = 107
