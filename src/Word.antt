-- ===== src/Word.antt =====
-- BWord.cpp: the class `BASE_WORD`, a byte string on the heap. A pointer that may be null is an
-- `Option`; what it points to is the list of the bytes that are allocated there.
pub mod Value
use sec_pro_gis.Base.{
  ℕ, zero, suc, ◌+◌, ◌-◌, ◌%◌, Bool, true, false, Option, none, some, List, [], ◌∷◌, ◌++◌,
}
use sec_pro_gis.Base.{
  length, take, drop, replicate, leb, ◌==◌, if◌then◌else◌, ltb, get_or, ℤ, pos, negsuc, wrap,
}

-- `BASE_WORD`
pub record Word : Type 0 where
  pub content : Option (List ℕ)
  pub len : ℕ

-- `BASE_WORD()`, and the words of `KM_WORD()` and `T_CELL`.
unfoldable pub empty : Word
empty = record { content = none; len = 0 }

-- `len <= 0`
unfoldable pub none_long : ℕ → Bool
none_long zero = true
none_long (suc n) = false

-- The tests of `isempty`, by the two members.
unfoldable pub isempty_code : Bool → Option (List ℕ) → ℤ
isempty_code true none = pos 0
isempty_code true (some b) = negsuc 0
isempty_code false none = negsuc 1
isempty_code false (some b) = pos 1

-- `isempty`: 1 if there is content.
unfoldable pub isempty : Word → ℤ
isempty w = isempty_code (none_long w.len) w.content

-- `isempty() == 1`
unfoldable pub is_one : ℤ → Bool
is_one (pos n) = n == 1
is_one (negsuc n) = false

unfoldable pub filled : Word → Bool
filled w = is_one (isempty w)

-- `clear`
pub clear : Word → Word
clear w = record { content = none; len = 0 }

-- `new char[len + 3]`, all zero, with `bytes` copied to its start.
unfoldable pub allocate : ℕ → List ℕ → List ℕ
allocate len bytes = take len bytes ++ replicate 3 0

-- What `read_in` makes of the word.
unfoldable pub read_bytes : Word → Option (List ℕ) → ℤ → Word
read_bytes w src (negsuc l) = record { content = none; len = 0 }
read_bytes w none (pos l) = record { content = none; len = 0 }
read_bytes w (some src) (pos zero) = record { content = none; len = 0 }
read_bytes w (some src) (pos (suc l)) = record {
  content = some (allocate (suc l) src);
  len = suc l;
}

-- `read_in`: the word, and the length that it returns.
unfoldable pub read_in : Word → Option (List ℕ) → ℤ → Word × ℕ
read_in w src l = let w' = read_bytes w src l in (w', w'.len)

-- `BASE_WORD(src, l)`
unfoldable pub from_segment : Option (List ℕ) → ℤ → Word
from_segment src l = (read_in empty src l).0

-- `memcpy(dest, content, n)`
unfoldable pub copy_content : Option (List ℕ) → ℕ → List ℕ → List ℕ
copy_content none n dest = dest
copy_content (some content) n dest = take n content ++ drop n dest

-- `get_cont(dest)`: the return code, and `dest` after it, for a `dest` that is not shorter than the
-- word.
pub get_cont : Word → Option (List ℕ) → ℤ × Option (List ℕ)
get_cont w none = (if filled w then negsuc 1 else negsuc 0, none)
get_cont w (some dest) =
    if filled w then (pos 0, some (copy_content w.content w.len dest)) else (negsuc 0, some dest)

-- `get_cont(dest, maxlen)`, for a `maxlen` that is not negative.
unfoldable pub get_cont_max : Word → Option (List ℕ) → ℕ → ℤ × Option (List ℕ)
get_cont_max w none maxlen = (if filled w then negsuc 1 else negsuc 0, none)
get_cont_max w (some dest) maxlen =
    let n = if ltb maxlen w.len then maxlen else w.len in
    if filled w then (pos 0, some (copy_content w.content n dest)) else (negsuc 0, some dest)

-- The copy constructor.
pub copy : Word → Word
copy src =
    if filled src
    then record { content = (get_cont src (some (replicate (src.len + 3) 0))).1; len = src.len }
    else empty

-- `operator=` on another object.
pub assign : Word → Word → Word
assign w src = if filled src then copy src else clear w

-- `operator=` on the object itself: `clear` comes first.
pub assign_self : Word → Word
assign_self w = let w' = clear w in assign w' w'

-- `operator[]`
pub content_at : Option (List ℕ) → ℕ → ℕ
content_at none j = 0
content_at (some content) j = get_or content j 0

pub char_at : Word → ℤ → ℕ
char_at w i = if filled w then content_at w.content (wrap i w.len) else 0
