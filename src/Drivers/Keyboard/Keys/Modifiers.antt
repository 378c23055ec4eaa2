-- ===== src/Drivers/Keyboard/Keys/Modifiers.antt =====
-- The codes of modifiers, function keys and the key pad, of keys with a prefix, and of releases.
use Prim.Native.Nat.{bit_or}
use pingu_os.Common.{ℕ}
use pingu_os.Drivers.Keyboard.Keys.Rows.{key_lctrl, key_lshift}

abbrev pub key_rshift : ℕ
key_rshift = 0x36

abbrev pub key_kp_asterisk : ℕ
key_kp_asterisk = 0x37

abbrev pub key_lalt : ℕ
key_lalt = 0x38

abbrev pub key_space : ℕ
key_space = 0x39

abbrev pub key_capslock : ℕ
key_capslock = 0x3A

abbrev pub key_f1 : ℕ
key_f1 = 0x3B

abbrev pub key_f2 : ℕ
key_f2 = 0x3C

abbrev pub key_f3 : ℕ
key_f3 = 0x3D

abbrev pub key_f4 : ℕ
key_f4 = 0x3E

abbrev pub key_f5 : ℕ
key_f5 = 0x3F

abbrev pub key_f6 : ℕ
key_f6 = 0x40

abbrev pub key_f7 : ℕ
key_f7 = 0x41

abbrev pub key_f8 : ℕ
key_f8 = 0x42

abbrev pub key_f9 : ℕ
key_f9 = 0x43

abbrev pub key_f10 : ℕ
key_f10 = 0x44

abbrev pub key_numlock : ℕ
key_numlock = 0x45

abbrev pub key_scrolllock : ℕ
key_scrolllock = 0x46

abbrev pub key_kp7 : ℕ
key_kp7 = 0x47

abbrev pub key_kp8 : ℕ
key_kp8 = 0x48

abbrev pub key_kp9 : ℕ
key_kp9 = 0x49

abbrev pub key_kp_minus : ℕ
key_kp_minus = 0x4A

abbrev pub key_kp4 : ℕ
key_kp4 = 0x4B

abbrev pub key_kp5 : ℕ
key_kp5 = 0x4C

abbrev pub key_kp6 : ℕ
key_kp6 = 0x4D

abbrev pub key_kp_plus : ℕ
key_kp_plus = 0x4E

abbrev pub key_kp1 : ℕ
key_kp1 = 0x4F

abbrev pub key_kp2 : ℕ
key_kp2 = 0x50

abbrev pub key_kp3 : ℕ
key_kp3 = 0x51

abbrev pub key_kp0 : ℕ
key_kp0 = 0x52

abbrev pub key_kp_dot : ℕ
key_kp_dot = 0x53

abbrev pub key_sysreq : ℕ
key_sysreq = 0x54

abbrev pub key_f11 : ℕ
key_f11 = 0x57

abbrev pub key_f12 : ℕ
key_f12 = 0x58

abbrev pub key_kp_enter : ℕ
key_kp_enter = 0xE01C

abbrev pub key_rctrl : ℕ
key_rctrl = 0xE01D

abbrev pub key_kp_slash : ℕ
key_kp_slash = 0xE035

abbrev pub key_ralt : ℕ
key_ralt = 0xE038

abbrev pub key_home : ℕ
key_home = 0xE047

abbrev pub key_up : ℕ
key_up = 0xE048

abbrev pub key_pgup : ℕ
key_pgup = 0xE049

abbrev pub key_left : ℕ
key_left = 0xE04B

abbrev pub key_right : ℕ
key_right = 0xE04D

abbrev pub key_end : ℕ
key_end = 0xE04F

abbrev pub key_down : ℕ
key_down = 0xE050

abbrev pub key_pgdn : ℕ
key_pgdn = 0xE051

abbrev pub key_insert : ℕ
key_insert = 0xE052

abbrev pub key_delete : ℕ
key_delete = 0xE053

abbrev pub key_lwin : ℕ
key_lwin = 0xE05B

abbrev pub key_rwin : ℕ
key_rwin = 0xE05C

abbrev pub key_menu : ℕ
key_menu = 0xE05D

abbrev pub key_lshift_release : ℕ
key_lshift_release = bit_or key_lshift 0x80

abbrev pub key_rshift_release : ℕ
key_rshift_release = bit_or key_rshift 0x80

abbrev pub key_lctrl_release : ℕ
key_lctrl_release = bit_or key_lctrl 0x80

abbrev pub key_rctrl_release : ℕ
key_rctrl_release = bit_or key_rctrl 0x80

abbrev pub key_lalt_release : ℕ
key_lalt_release = bit_or key_lalt 0x80

abbrev pub key_ralt_release : ℕ
key_ralt_release = bit_or key_ralt 0x80
