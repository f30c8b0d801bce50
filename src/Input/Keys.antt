-- ===== src/Input/Keys.antt =====
-- uinput.cpp (server/src/server): the table of key codes and the virtual keyboard. `short` values are
-- integers, and the -1 of an unmapped key is `none`.
use steamos_containerized.Common.{
  ◌==◌, if◌then◌else◌, Bool-cases, In, ℕ, ◌≡◌, inl, inr, Bool, Option, none, some, List, [], ◌∷◌,
  map, arith,
}
use steamos_containerized.Common.Int.{ℤ, pos, negsuc}
use steamos_containerized.Input.{
  Code, ev_key, Event, emit, syn, Ioctl, set_evbit, set_keybit, sign_bit, key_backspace, key_tab,
  key_clear, key_enter, key_leftshift, key_leftctrl, key_leftalt, key_pause, key_capslock, key_esc,
  key_space, key_pageup, key_pagedown, key_end, key_home, key_left, key_up, key_right, key_down,
  key_sysrq, key_insert, key_delete, key_0, key_1, key_2, key_3, key_4, key_5, key_6, key_7, key_8,
  key_9, key_a, key_b, key_c, key_d, key_e, key_f, key_g, key_h, key_i, key_j, key_k, key_l, key_m,
  key_n, key_o, key_p, key_q, key_r, key_s, key_t, key_u, key_v, key_w, key_x, key_y, key_z,
  key_leftmeta, key_rightmeta, key_kp0, key_kp1, key_kp2, key_kp3, key_kp4, key_kp5, key_kp6,
  key_kp7, key_kp8, key_kp9, key_kpasterisk, key_kpplus, key_kpminus, key_kpdot, key_kpslash,
  key_f1, key_f2, key_f3, key_f4, key_f5, key_f6, key_f7, key_f8, key_f9, key_f10, key_f11, key_f12,
  key_numlock, key_scrolllock, key_rightshift, key_rightctrl, key_rightalt, key_semicolon,
  key_equal, key_comma, key_minus, key_dot, key_slash, key_grave, key_leftbrace, key_backslash,
  key_rightbrace, key_apostrophe, key_102nd,
}

abbrev pub key_mappings : List (ℕ × Code)
key_mappings =
    (8, key_backspace)
    ∷ (9, key_tab)
    ∷ (12, key_clear)
    ∷ (13, key_enter)
    ∷ (16, key_leftshift)
    ∷ (17, key_leftctrl)
    ∷ (18, key_leftalt)
    ∷ (19, key_pause)
    ∷ (20, key_capslock)
    ∷ (27, key_esc)
    ∷ (32, key_space)
    ∷ (33, key_pageup)
    ∷ (34, key_pagedown)
    ∷ (35, key_end)
    ∷ (36, key_home)
    ∷ (37, key_left)
    ∷ (38, key_up)
    ∷ (39, key_right)
    ∷ (40, key_down)
    ∷ (44, key_sysrq)
    ∷ (45, key_insert)
    ∷ (46, key_delete)
    ∷ (48, key_0)
    ∷ (49, key_1)
    ∷ (50, key_2)
    ∷ (51, key_3)
    ∷ (52, key_4)
    ∷ (53, key_5)
    ∷ (54, key_6)
    ∷ (55, key_7)
    ∷ (56, key_8)
    ∷ (57, key_9)
    ∷ (65, key_a)
    ∷ (66, key_b)
    ∷ (67, key_c)
    ∷ (68, key_d)
    ∷ (69, key_e)
    ∷ (70, key_f)
    ∷ (71, key_g)
    ∷ (72, key_h)
    ∷ (73, key_i)
    ∷ (74, key_j)
    ∷ (75, key_k)
    ∷ (76, key_l)
    ∷ (77, key_m)
    ∷ (78, key_n)
    ∷ (79, key_o)
    ∷ (80, key_p)
    ∷ (81, key_q)
    ∷ (82, key_r)
    ∷ (83, key_s)
    ∷ (84, key_t)
    ∷ (85, key_u)
    ∷ (86, key_v)
    ∷ (87, key_w)
    ∷ (88, key_x)
    ∷ (89, key_y)
    ∷ (90, key_z)
    ∷ (91, key_leftmeta)
    ∷ (92, key_rightmeta)
    ∷ (96, key_kp0)
    ∷ (97, key_kp1)
    ∷ (98, key_kp2)
    ∷ (99, key_kp3)
    ∷ (100, key_kp4)
    ∷ (101, key_kp5)
    ∷ (102, key_kp6)
    ∷ (103, key_kp7)
    ∷ (104, key_kp8)
    ∷ (105, key_kp9)
    ∷ (106, key_kpasterisk)
    ∷ (107, key_kpplus)
    ∷ (109, key_kpminus)
    ∷ (110, key_kpdot)
    ∷ (111, key_kpslash)
    ∷ (112, key_f1)
    ∷ (113, key_f2)
    ∷ (114, key_f3)
    ∷ (115, key_f4)
    ∷ (116, key_f5)
    ∷ (117, key_f6)
    ∷ (118, key_f7)
    ∷ (119, key_f8)
    ∷ (120, key_f9)
    ∷ (121, key_f10)
    ∷ (122, key_f11)
    ∷ (123, key_f12)
    ∷ (144, key_numlock)
    ∷ (145, key_scrolllock)
    ∷ (160, key_leftshift)
    ∷ (161, key_rightshift)
    ∷ (162, key_leftctrl)
    ∷ (163, key_rightctrl)
    ∷ (164, key_leftalt)
    ∷ (165, key_rightalt)
    ∷ (186, key_semicolon)
    ∷ (187, key_equal)
    ∷ (188, key_comma)
    ∷ (189, key_minus)
    ∷ (190, key_dot)
    ∷ (191, key_slash)
    ∷ (192, key_grave)
    ∷ (219, key_leftbrace)
    ∷ (220, key_backslash)
    ∷ (221, key_rightbrace)
    ∷ (222, key_apostrophe)
    ∷ (226, key_102nd)
    ∷ []

unfoldable pub find_key : ℕ → List (ℕ × Code) → Option Code
find_key k [] = none
find_key k ((vk, code) ∷ rest) = if vk == k then some code else find_key k rest

unfoldable pub moonlight_key_to_linux : ℤ → Option Code
unfolding find_key
moonlight_key_to_linux (pos k) = find_key k key_mappings
moonlight_key_to_linux (negsuc k) = none

abbrev keybit_of : ℕ × Code → Ioctl
keybit_of (vk, code) = set_keybit code

unfoldable pub keyboard_ioctls : List Ioctl
keyboard_ioctls = set_evbit ev_key ∷ set_keybit key_backspace ∷ map keybit_of key_mappings

abbrev pub key_events : Option Code → Bool → List Event
key_events none pressed = []
key_events (some code) pressed = emit ev_key code (sign_bit pressed) ∷ syn ∷ []

unfoldable pub key : ℤ → Bool → List Event
unfolding moonlight_key_to_linux
key moonlight_key pressed = key_events (moonlight_key_to_linux moonlight_key) pressed

-- What the table maps a key to, the keyboard has asked for.
pub In-find_key :
    (k : ℕ) (table : List (ℕ × Code)) (code : Code)
    → find_key k table ≡ some code
    → In (set_keybit code) (map keybit_of table)
unfolding find_key
In-find_key k [] code e = cc
In-find_key k ((vk, c) ∷ rest) code e = elim (Bool-cases (vk == k)) [
  | inl t ↦ inl (ground arith)
  | inr n ↦ inr (In-find_key k rest code (ground arith))
]
