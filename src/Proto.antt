-- ===== src/Proto.antt =====
-- StudentManagementServer/Proto.h: the command codes and the packet header, as both sides share
-- them (StudentManagementClient/Proto.h defines the same codes).
pub mod Codec
pub mod Requests
use school_information_manag.Prelude.{ℕ, ◌+◌, ◌*◌, ◌/◌, ◌%◌, ◌^◌, ◌≤◌, ◌<◌, Bytes, [], ◌∷◌}

abbrev pub mysql_login : ℕ
mysql_login = 0

abbrev pub login_ok : ℕ
login_ok = 1

abbrev pub login_err : ℕ
login_err = 2

abbrev pub stu_add : ℕ
stu_add = 3

abbrev pub stu_add_ok : ℕ
stu_add_ok = 4

abbrev pub stu_add_err : ℕ
stu_add_err = 5

abbrev pub stu_del : ℕ
stu_del = 6

abbrev pub stu_del_ok : ℕ
stu_del_ok = 7

abbrev pub stu_del_err : ℕ
stu_del_err = 8

abbrev pub stu_query : ℕ
stu_query = 9

abbrev pub stu_query_result : ℕ
stu_query_result = 10

abbrev pub stu_query_err : ℕ
stu_query_err = 11

abbrev pub stu_query_null : ℕ
stu_query_null = 12

abbrev pub stu_edit : ℕ
stu_edit = 13

abbrev pub stu_edit_check : ℕ
stu_edit_check = 14

abbrev pub stu_edit_null : ℕ
stu_edit_null = 15

abbrev pub stu_edit_ok : ℕ
stu_edit_ok = 16

abbrev pub stu_edit_err : ℕ
stu_edit_err = 17

abbrev pub class_add : ℕ
class_add = 18

abbrev pub class_add_ok : ℕ
class_add_ok = 19

abbrev pub class_add_err : ℕ
class_add_err = 20

abbrev pub class_del : ℕ
class_del = 21

abbrev pub class_del_ok : ℕ
class_del_ok = 22

abbrev pub class_del_err : ℕ
class_del_err = 23

abbrev pub class_query : ℕ
class_query = 24

abbrev pub class_query_result : ℕ
class_query_result = 25

abbrev pub class_query_err : ℕ
class_query_err = 26

abbrev pub class_query_null : ℕ
class_query_null = 27

abbrev pub class_edit : ℕ
class_edit = 28

abbrev pub class_edit_check : ℕ
class_edit_check = 29

abbrev pub class_edit_null : ℕ
class_edit_null = 30

abbrev pub class_edit_ok : ℕ
class_edit_ok = 31

abbrev pub class_edit_err : ℕ
class_edit_err = 32

abbrev pub course_add : ℕ
course_add = 33

abbrev pub course_add_ok : ℕ
course_add_ok = 34

abbrev pub course_add_err : ℕ
course_add_err = 35

abbrev pub course_del : ℕ
course_del = 36

abbrev pub course_del_ok : ℕ
course_del_ok = 37

abbrev pub course_del_err : ℕ
course_del_err = 38

abbrev pub course_query : ℕ
course_query = 39

abbrev pub course_query_result : ℕ
course_query_result = 40

abbrev pub course_query_err : ℕ
course_query_err = 41

abbrev pub course_query_null : ℕ
course_query_null = 42

abbrev pub course_edit : ℕ
course_edit = 43

abbrev pub course_edit_check : ℕ
course_edit_check = 44

abbrev pub course_edit_null : ℕ
course_edit_null = 45

abbrev pub course_edit_ok : ℕ
course_edit_ok = 46

abbrev pub course_edit_err : ℕ
course_edit_err = 47

abbrev pub record_add : ℕ
record_add = 48

abbrev pub record_add_ok : ℕ
record_add_ok = 49

abbrev pub record_add_err : ℕ
record_add_err = 50

abbrev pub record_del : ℕ
record_del = 51

abbrev pub record_del_ok : ℕ
record_del_ok = 52

abbrev pub record_del_err : ℕ
record_del_err = 53

abbrev pub record_query : ℕ
record_query = 54

abbrev pub record_query_result : ℕ
record_query_result = 55

abbrev pub record_query_err : ℕ
record_query_err = 56

abbrev pub record_query_null : ℕ
record_query_null = 57

abbrev pub record_edit : ℕ
record_edit = 58

abbrev pub record_edit_check : ℕ
record_edit_check = 59

abbrev pub record_edit_null : ℕ
record_edit_null = 60

abbrev pub record_edit_ok : ℕ
record_edit_ok = 61

abbrev pub record_edit_err : ℕ
record_edit_err = 62

-- `stPacketHdr`, packed to one byte: a `short` and a `DWORD`, six bytes in all.
pub record PacketHdr : Type 0 where
  pub n_cmd : ℕ
  pub n_len : ℕ

abbrev pub hdr_size : ℕ
hdr_size = 6

-- The memory of a header on the little-endian machines that the program runs on.
unfoldable pub hdr_bytes : PacketHdr → Bytes
hdr_bytes h =
    h.n_cmd % 256
    ∷ h.n_cmd / 256 % 256
    ∷ h.n_len % 256
    ∷ h.n_len / 256 % 256
    ∷ h.n_len / 2 ^ 16 % 256
    ∷ h.n_len / 2 ^ 24 % 256
    ∷ []

-- The header that six bytes of memory stand for (any other length does not occur).
unfoldable pub hdr_of_bytes : Bytes → PacketHdr
hdr_of_bytes (c0 ∷ c1 ∷ l0 ∷ l1 ∷ l2 ∷ l3 ∷ rest) = record {
  n_cmd = c0 + c1 * 256;
  n_len = l0 + l1 * 256 + l2 * 2 ^ 16 + l3 * 2 ^ 24;
}
hdr_of_bytes _ = record { n_cmd = 0; n_len = 0 }

-- `htonl` and `ntohl` of a 32-bit word on a little-endian machine: the four bytes reversed.
unfoldable pub htonl : ℕ → ℕ
htonl n = n % 256 * 2 ^ 24 + n / 256 % 256 * 2 ^ 16 + n / 2 ^ 16 % 256 * 256 + n / 2 ^ 24 % 256

unfoldable pub ntohl : ℕ → ℕ
unfolding htonl
ntohl n = htonl n
