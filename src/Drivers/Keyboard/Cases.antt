-- ===== src/Drivers/Keyboard/Cases.antt =====
-- The cases of the switch of `TextualKeyboardHandler::emit_event`, src/drivers/keyboard.cpp.
use pingu_os.Common.{ℕ, List, [], ◌∷◌}
use pingu_os.Drivers.Keyboard.Keys.{
  key_0, key_1, key_2, key_3, key_4, key_5, key_6, key_7, key_8, key_9, key_a, key_apostrophe,
  key_b, key_backslash, key_backspace, key_c, key_capslock, key_comma, key_d, key_delete, key_dot,
  key_down, key_e, key_end, key_enter, key_equal, key_esc, key_f, key_f1, key_f10, key_f11, key_f12,
  key_f2, key_f3, key_f4, key_f5, key_f6, key_f7, key_f8, key_f9, key_g, key_h, key_home, key_i,
  key_insert, key_j, key_k, key_kp0, key_kp1, key_kp2, key_kp3, key_kp4, key_kp5, key_kp6, key_kp7,
  key_kp8, key_kp9, key_kp_asterisk, key_kp_dot, key_kp_enter, key_kp_minus, key_kp_plus,
  key_kp_slash, key_l, key_lalt, key_lalt_release, key_lbracket, key_lctrl, key_lctrl_release,
  key_left, key_lwin, key_m, key_menu, key_minus, key_n, key_numlock, key_o, key_p, key_pgdn,
  key_pgup, key_q, key_r, key_ralt, key_ralt_release, key_rbracket, key_rctrl, key_rctrl_release,
  key_right, key_rwin, key_s, key_scrolllock, key_semicolon, key_slash, key_space, key_t, key_tab,
  key_u, key_up, key_v, key_w, key_x, key_y, key_z,
}

-- The label of a case that prints, and the characters without and with shift.
abbrev pub KeyCase : Type 0
KeyCase = ℕ × ℕ × ℕ

abbrev pub control_keys : List KeyCase
control_keys =
    (key_backspace, 0x08, 0x08)
    ∷ (key_tab, 0x09, 0x09)
    ∷ (key_enter, 0x0A, 0x0A)
    ∷ (key_space, b' ', b' ')
    ∷ []

abbrev pub number_row : List KeyCase
number_row =
    (key_1, b'1', b'!')
    ∷ (key_2, b'2', b'@')
    ∷ (key_3, b'3', b'#')
    ∷ (key_4, b'4', b'$')
    ∷ (key_5, b'5', b'%')
    ∷ (key_6, b'6', b'^')
    ∷ (key_7, b'7', b'&')
    ∷ (key_8, b'8', b'*')
    ∷ (key_9, b'9', b'(')
    ∷ (key_0, b'0', b')')
    ∷ (key_minus, b'-', b'_')
    ∷ (key_equal, b'=', b'+')
    ∷ []

abbrev pub top_row : List KeyCase
top_row =
    (key_q, b'q', b'Q')
    ∷ (key_w, b'w', b'W')
    ∷ (key_e, b'e', b'E')
    ∷ (key_r, b'r', b'R')
    ∷ (key_t, b't', b'T')
    ∷ (key_y, b'y', b'Y')
    ∷ (key_u, b'u', b'U')
    ∷ (key_i, b'i', b'I')
    ∷ (key_o, b'o', b'O')
    ∷ (key_p, b'p', b'P')
    ∷ (key_lbracket, b'[', b'{')
    ∷ (key_rbracket, b']', b'}')
    ∷ (key_backslash, 0x5C, b'|')
    ∷ []

abbrev pub home_row : List KeyCase
home_row =
    (key_a, b'a', b'A')
    ∷ (key_s, b's', b'S')
    ∷ (key_d, b'd', b'D')
    ∷ (key_f, b'f', b'F')
    ∷ (key_g, b'g', b'G')
    ∷ (key_h, b'h', b'H')
    ∷ (key_j, b'j', b'J')
    ∷ (key_k, b'k', b'K')
    ∷ (key_l, b'l', b'L')
    ∷ (key_semicolon, b';', b':')
    ∷ (key_apostrophe, 0x27, 0x22)
    ∷ []

abbrev pub bottom_row : List KeyCase
bottom_row =
    (key_z, b'z', b'Z')
    ∷ (key_x, b'x', b'X')
    ∷ (key_c, b'c', b'C')
    ∷ (key_v, b'v', b'V')
    ∷ (key_b, b'b', b'B')
    ∷ (key_n, b'n', b'N')
    ∷ (key_m, b'm', b'M')
    ∷ (key_comma, b',', b'<')
    ∷ (key_dot, b'.', b'>')
    ∷ (key_slash, b'/', b'?')
    ∷ []

abbrev pub keypad : List KeyCase
keypad =
    (key_kp0, b'0', b'0')
    ∷ (key_kp1, b'1', b'1')
    ∷ (key_kp2, b'2', b'2')
    ∷ (key_kp3, b'3', b'3')
    ∷ (key_kp4, b'4', b'4')
    ∷ (key_kp5, b'5', b'5')
    ∷ (key_kp6, b'6', b'6')
    ∷ (key_kp7, b'7', b'7')
    ∷ (key_kp8, b'8', b'8')
    ∷ (key_kp9, b'9', b'9')
    ∷ (key_kp_dot, b'.', b'.')
    ∷ (key_kp_plus, b'+', b'+')
    ∷ (key_kp_minus, b'-', b'-')
    ∷ (key_kp_asterisk, b'*', b'*')
    ∷ (key_kp_slash, b'/', b'/')
    ∷ (key_kp_enter, 0x0A, 0x0A)
    ∷ []

-- The labels of the cases that do nothing.
abbrev pub silent_keys : List ℕ
silent_keys =
    key_esc ∷ key_lctrl ∷ key_rctrl ∷ key_lalt ∷ key_ralt ∷ key_capslock ∷ key_numlock
    ∷ key_scrolllock ∷ key_f1 ∷ key_f2 ∷ key_f3 ∷ key_f4 ∷ key_f5 ∷ key_f6 ∷ key_f7 ∷ key_f8
    ∷ key_f9 ∷ key_f10 ∷ key_f11 ∷ key_f12 ∷ key_up ∷ key_down ∷ key_left ∷ key_right ∷ key_home
    ∷ key_end ∷ key_pgup ∷ key_pgdn ∷ key_insert ∷ key_delete ∷ key_lwin ∷ key_rwin ∷ key_menu
    ∷ 0xFA ∷ 0xC5 ∷ key_lctrl_release ∷ key_rctrl_release ∷ key_lalt_release ∷ key_ralt_release ∷ []
