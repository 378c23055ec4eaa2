-- ===== src/Drivers/Keyboard/Keys/Rows.antt =====
-- The codes of the rows of keys.
use pingu_os.Common.{ℕ}

abbrev pub key_esc : ℕ
key_esc = 0x01

abbrev pub key_1 : ℕ
key_1 = 0x02

abbrev pub key_2 : ℕ
key_2 = 0x03

abbrev pub key_3 : ℕ
key_3 = 0x04

abbrev pub key_4 : ℕ
key_4 = 0x05

abbrev pub key_5 : ℕ
key_5 = 0x06

abbrev pub key_6 : ℕ
key_6 = 0x07

abbrev pub key_7 : ℕ
key_7 = 0x08

abbrev pub key_8 : ℕ
key_8 = 0x09

abbrev pub key_9 : ℕ
key_9 = 0x0A

abbrev pub key_0 : ℕ
key_0 = 0x0B

abbrev pub key_minus : ℕ
key_minus = 0x0C

abbrev pub key_equal : ℕ
key_equal = 0x0D

abbrev pub key_backspace : ℕ
key_backspace = 0x0E

abbrev pub key_tab : ℕ
key_tab = 0x0F

abbrev pub key_q : ℕ
key_q = 0x10

abbrev pub key_w : ℕ
key_w = 0x11

abbrev pub key_e : ℕ
key_e = 0x12

abbrev pub key_r : ℕ
key_r = 0x13

abbrev pub key_t : ℕ
key_t = 0x14

abbrev pub key_y : ℕ
key_y = 0x15

abbrev pub key_u : ℕ
key_u = 0x16

abbrev pub key_i : ℕ
key_i = 0x17

abbrev pub key_o : ℕ
key_o = 0x18

abbrev pub key_p : ℕ
key_p = 0x19

abbrev pub key_lbracket : ℕ
key_lbracket = 0x1A

abbrev pub key_rbracket : ℕ
key_rbracket = 0x1B

abbrev pub key_enter : ℕ
key_enter = 0x1C

abbrev pub key_lctrl : ℕ
key_lctrl = 0x1D

abbrev pub key_a : ℕ
key_a = 0x1E

abbrev pub key_s : ℕ
key_s = 0x1F

abbrev pub key_d : ℕ
key_d = 0x20

abbrev pub key_f : ℕ
key_f = 0x21

abbrev pub key_g : ℕ
key_g = 0x22

abbrev pub key_h : ℕ
key_h = 0x23

abbrev pub key_j : ℕ
key_j = 0x24

abbrev pub key_k : ℕ
key_k = 0x25

abbrev pub key_l : ℕ
key_l = 0x26

abbrev pub key_semicolon : ℕ
key_semicolon = 0x27

abbrev pub key_apostrophe : ℕ
key_apostrophe = 0x28

abbrev pub key_grave : ℕ
key_grave = 0x29

abbrev pub key_lshift : ℕ
key_lshift = 0x2A

abbrev pub key_backslash : ℕ
key_backslash = 0x2B

abbrev pub key_z : ℕ
key_z = 0x2C

abbrev pub key_x : ℕ
key_x = 0x2D

abbrev pub key_c : ℕ
key_c = 0x2E

abbrev pub key_v : ℕ
key_v = 0x2F

abbrev pub key_b : ℕ
key_b = 0x30

abbrev pub key_n : ℕ
key_n = 0x31

abbrev pub key_m : ℕ
key_m = 0x32

abbrev pub key_comma : ℕ
key_comma = 0x33

abbrev pub key_dot : ℕ
key_dot = 0x34

abbrev pub key_slash : ℕ
key_slash = 0x35
