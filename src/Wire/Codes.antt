-- ===== src/Wire/Codes.antt =====
-- The message codes of UPSServer/datatypes/Message.h, and the table of formats that
-- `fillMapWithValues` of UPSServer/helpers/Serializer.cpp fills. In a format an `i` stands for a
-- 32-bit word and an `s` for a string.
use ups_server.Base.{ℕ, Bytes, codes, List, [], ◌∷◌, Option, none, some, ◌==◌, if◌then◌else◌}

abbrev pub msg_min_size : ℕ
msg_min_size = 9

abbrev pub msg_head_size : ℕ
msg_head_size = 4

abbrev pub msg_size_size : ℕ
msg_size_size = 4

abbrev pub msg_checksum_size : ℕ
msg_checksum_size = 1

abbrev pub msg_string_len_size : ℕ
msg_string_len_size = 4

abbrev h_c_nack : ℕ
h_c_nack = 0x00000000

abbrev h_c_ack : ℕ
h_c_ack = 0x00000001

abbrev h_c_ping : ℕ
h_c_ping = 0x00000002

abbrev pub h_s_nack : ℕ
h_s_nack = 0x00010000

abbrev pub h_s_ack : ℕ
h_s_ack = 0x00010001

abbrev h_s_ping : ℕ
h_s_ping = 0x00010002

abbrev pub h_c_new_pl : ℕ
h_c_new_pl = 0x00000003

abbrev pub h_c_pl_reconn : ℕ
h_c_pl_reconn = 0x00000004

abbrev pub h_c_pl_logout : ℕ
h_c_pl_logout = 0x00000005

abbrev pub h_c_pl_list_req : ℕ
h_c_pl_list_req = 0x00000006

abbrev pub h_s_pl_list_ans : ℕ
h_s_pl_list_ans = 0x00010007

abbrev pub h_s_nack_reas : ℕ
h_s_nack_reas = 0x00010008

abbrev pub h_c_join_player : ℕ
h_c_join_player = 0x00000009

abbrev pub h_s_join_player : ℕ
h_s_join_player = 0x0001000A

abbrev pub h_c_declin_join : ℕ
h_c_declin_join = 0x0000000B

abbrev pub h_c_accept_join : ℕ
h_c_accept_join = 0x0000000C

abbrev pub h_s_game_start : ℕ
h_s_game_start = 0x0001000D

abbrev pub h_c_game_move : ℕ
h_c_game_move = 0x0000000E

abbrev pub h_s_game_move : ℕ
h_s_game_move = 0x0001000F

abbrev pub h_s_game_won : ℕ
h_s_game_won = 0x00010010

abbrev pub h_s_game_ended : ℕ
h_s_game_ended = 0x00010011

abbrev pub h_s_pl_loss : ℕ
h_s_pl_loss = 0x00010012

abbrev pub h_s_game_con : ℕ
h_s_game_con = 0x00010013

abbrev pub internal_pl_lost : ℕ
internal_pl_lost = 0x00011111

-- The entries in the order of the assignments; no key is assigned twice.
abbrev pub format_table : List (ℕ × Bytes)
format_table =
    (h_c_nack, codes "")
    ∷ (h_c_ack, codes "")
    ∷ (h_c_ping, codes "")
    ∷ (h_s_nack, codes "")
    ∷ (h_s_ack, codes "")
    ∷ (h_s_ping, codes "")
    ∷ (h_c_new_pl, codes "s")
    ∷ (h_c_pl_reconn, codes "s")
    ∷ (h_c_pl_logout, codes "")
    ∷ (h_c_pl_list_req, codes "")
    ∷ (h_s_pl_list_ans, codes "is")
    ∷ (h_s_nack_reas, codes "s")
    ∷ (h_c_join_player, codes "s")
    ∷ (h_s_join_player, codes "s")
    ∷ (h_c_declin_join, codes "")
    ∷ (h_c_accept_join, codes "")
    ∷ (h_s_game_start, codes "ss")
    ∷ (h_c_game_move, codes "iii")
    ∷ (h_s_game_move, codes "iii")
    ∷ (h_s_game_won, codes "siii")
    ∷ (h_s_game_ended, codes "")
    ∷ (h_s_pl_loss, codes "")
    ∷ (h_s_game_con, codes "sss")
    ∷ []

unfoldable pub find_format : List (ℕ × Bytes) → ℕ → Option Bytes
find_format [] header = none
find_format ((key, format) ∷ rest) header =
    if key == header then some format else find_format rest header

-- `headToFormatMap->find(header)`.
unfoldable pub head_to_format : ℕ → Option Bytes
unfolding find_format
head_to_format header = find_format format_table header
