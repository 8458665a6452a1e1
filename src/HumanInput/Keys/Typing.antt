-- ===== src/HumanInput/Keys/Typing.antt =====
-- `human_input_keys_t`: letters and digits.
use Prim.Native.Nat.{ℕ}

abbrev pub key_a : ℕ
key_a = 1

abbrev pub key_b : ℕ
key_b = 2

abbrev pub key_c : ℕ
key_c = 3

abbrev pub key_d : ℕ
key_d = 4

abbrev pub key_e : ℕ
key_e = 5

abbrev pub key_f : ℕ
key_f = 6

abbrev pub key_g : ℕ
key_g = 7

abbrev pub key_h : ℕ
key_h = 8

abbrev pub key_i : ℕ
key_i = 9

abbrev pub key_j : ℕ
key_j = 10

abbrev pub key_k : ℕ
key_k = 11

abbrev pub key_l : ℕ
key_l = 12

abbrev pub key_m : ℕ
key_m = 13

abbrev pub key_n : ℕ
key_n = 14

abbrev pub key_o : ℕ
key_o = 15

abbrev pub key_p : ℕ
key_p = 16

abbrev pub key_q : ℕ
key_q = 17

abbrev pub key_r : ℕ
key_r = 18

abbrev pub key_s : ℕ
key_s = 19

abbrev pub key_t : ℕ
key_t = 20

abbrev pub key_u : ℕ
key_u = 21

abbrev pub key_v : ℕ
key_v = 22

abbrev pub key_w : ℕ
key_w = 23

abbrev pub key_x : ℕ
key_x = 24

abbrev pub key_y : ℕ
key_y = 25

abbrev pub key_z : ℕ
key_z = 26

abbrev pub key_0 : ℕ
key_0 = 27

abbrev pub key_1 : ℕ
key_1 = 28

abbrev pub key_2 : ℕ
key_2 = 29

abbrev pub key_3 : ℕ
key_3 = 30

abbrev pub key_4 : ℕ
key_4 = 31

abbrev pub key_5 : ℕ
key_5 = 32

abbrev pub key_6 : ℕ
key_6 = 33

abbrev pub key_7 : ℕ
key_7 = 34

abbrev pub key_8 : ℕ
key_8 = 35

abbrev pub key_9 : ℕ
key_9 = 36
