-- ===== src/Numbers.antt =====
-- Characters and numbers, src/ctype.c and src/stdlib.c. A character is its byte; a `char` from
-- 128 on is negative in C and passes no test of src/ctype.c, as here.
pub mod Chars
pub mod Atoi
pub mod Random
mod Tests
use sant_os.Prelude.{
  ℕ, ◌+◌, ◌-◌, ◌*◌, ◌/◌, ◌%◌, ◌^◌, Bool, true, false, ◌&&◌, ◌||◌, List, [], ◌∷◌, leb, ◌==◌,
  if◌then◌else◌, u32, u64, sub32, sub64,
}

unfoldable pub isdigit : ℕ → Bool
isdigit c = leb b'0' c && leb c b'9'

unfoldable pub isalpha : ℕ → Bool
isalpha c = (leb b'a' c && leb c b'z') || (leb b'A' c && leb c b'Z')

unfoldable pub isalnum : ℕ → Bool
isalnum c = isalpha c || isdigit c

unfoldable pub isspace : ℕ → Bool
isspace c = c == 32 || c == 9 || c == 10 || c == 13 || c == 11 || c == 12

unfoldable pub isupper : ℕ → Bool
isupper c = leb b'A' c && leb c b'Z'

unfoldable pub islower : ℕ → Bool
islower c = leb b'a' c && leb c b'z'

unfoldable pub isxdigit : ℕ → Bool
isxdigit c = isdigit c || (leb b'a' c && leb c b'f') || (leb b'A' c && leb c b'F')

unfoldable pub isprint : ℕ → Bool
isprint c = leb 0x20 c && leb c 0x7E

unfoldable pub toupper : ℕ → ℕ
toupper c = if islower c then c - 32 else c

unfoldable pub tolower : ℕ → ℕ
tolower c = if isupper c then c + 32 else c

-- `while (isspace(*str)) str++;`
unfoldable pub skip_space : List ℕ → List ℕ
skip_space [] = []
skip_space (c ∷ s) = if isspace c then skip_space s else c ∷ s

-- `while (isdigit(*str))`. An `int` is its word of 32 bits; an overflow, which C leaves
-- undefined, wraps round.
unfoldable pub read_digits : ℕ → List ℕ → ℕ
read_digits result [] = result
read_digits result (c ∷ s) =
    let rest = read_digits (u32 (result * 10 + (c - b'0'))) s in if isdigit c then rest else result

-- The sign, and what follows; the product with -1 is a word too.
unfoldable pub read_signed : List ℕ → ℕ
read_signed [] = read_digits 0 []
read_signed (c ∷ s) =
    if c == b'-'
    then sub32 0 (read_digits 0 s)
    else if c == b'+'
    then read_digits 0 s
    else read_digits 0 (c ∷ s)

unfoldable pub atoi : List ℕ → ℕ
atoi str = read_signed (skip_space str)

unfoldable pub srand : ℕ → ℕ
srand seed = u32 seed

-- `rand`: the next `rand_seed`, and the number returned.
unfoldable pub rand : ℕ → ℕ × ℕ
rand rand_seed =
    let next = u64 (rand_seed * 1103515245 + 12345) in (next, u32 (next / 65536) % 32768)
