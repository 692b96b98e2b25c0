-- ===== src/Wire/ApplicationTag.antt =====
-- types.go: `ApplicationTag`, the tag numbers of the application class.
use bacnet_go.Base.{ℕ}

abbrev pub null : ℕ
null = 0

abbrev pub boolean : ℕ
boolean = 1

abbrev pub unsigned_int : ℕ
unsigned_int = 2

abbrev pub signed_int : ℕ
signed_int = 3

abbrev pub real : ℕ
real = 4

abbrev pub double : ℕ
double = 5

abbrev pub octet_string : ℕ
octet_string = 6

abbrev pub character_string : ℕ
character_string = 7

abbrev pub bit_string : ℕ
bit_string = 8

abbrev pub enumerated : ℕ
enumerated = 9

abbrev pub date : ℕ
date = 10

abbrev pub time : ℕ
time = 11

abbrev pub object_id : ℕ
object_id = 12
