-- ===== src/Stream.antt =====
-- Lines of a data connection: BufferGets of libncftp/rcmd.c and the loop of libncftp/io_listmem.c that
-- reads a listing with it.
pub mod Chunks
pub mod Listing
mod Tests
use ncftp.Base.{
  ℕ, zero, suc, ◌+◌, ◌-◌, Bool, true, false, not, ◌&&◌, ◌||◌, List, [], ◌∷◌, ◌++◌, ltb, ◌==◌,
  if◌then◌else◌, length, get_or,
}
use ncftp.Base.Bytes.{Bytes, c_str}

-- What read() returns: at least one byte, 0, or a negative number.
pub data Read : Type 0 where
  got : ℕ → Bytes → Read
  ended broken : Read

-- The bytes that are in the secondary buffer and not used, up to where BufferGets stops: it has its
-- line, with what is left, or it is out of bytes, with the room that is left and the line so far.
pub data Scanned : Type 0 where
  stopped : Bytes → Bytes → Scanned
  hungry : ℕ → Bytes → Scanned

-- `room` is `dstlim - dst`, and `line` what stands in front of `dst`.
unfoldable pub scan_bytes : ℕ → Bytes → Bytes → Scanned
scan_bytes zero line s = stopped line s
scan_bytes (suc room) line [] = hungry room line
scan_bytes (suc room) line (c ∷ s) =
    let skip = scan_bytes (suc room) line s in
    let next = scan_bytes room (line ++ (c ∷ [])) s in
    if c == 13 then skip else if c == 10 then stopped line s else next

-- How BufferGets comes to `done`.
pub data LineEnd : Type 0 where
  whole at_eof on_error : LineEnd

pub record Got : Type 0 where
  pub ending : LineEnd
  pub line : Bytes
  pub pending : Bytes
  pub reads : List Read

abbrev pub got_line : LineEnd → Bytes → Bytes → List Read → Got
got_line e l s rs = record { ending = e; line = l; pending = s; reads = rs }

-- The secondary buffer is filled whenever it is used up; without another read the stream is at its end.
unfoldable pub fill_line : List Read → Scanned → Got
fill_line rs (stopped line s) = got_line whole line s rs
fill_line [] (hungry room line) = got_line at_eof line [] []
fill_line (ended ∷ rs) (hungry room line) = got_line at_eof line [] rs
fill_line (broken ∷ rs) (hungry room line) = got_line on_error line [] rs
fill_line (got c s ∷ rs) (hungry room line) = fill_line rs (scan_bytes (suc room) line (c ∷ s))

-- BufferGets with a buffer of `bufsize` bytes.
abbrev pub buffer_gets : ℕ → Bytes → List Read → Got
buffer_gets bufsize pending rs = fill_line rs (scan_bytes (bufsize - 1) [] pending)

-- Whether it returns a negative number.
abbrev pub is_over : Got → Bool
is_over g = elim g.ending [ whole ↦ false | at_eof ↦ length g.line == 0 | on_error ↦ true ]

-- iscntrl in the "C" locale.
abbrev pub is_control : ℕ → Bool
is_control c = ltb c 32 || c == 127

-- `.`, `..`, and `..` with a control character behind it; a string ends with its NUL.
abbrev pub is_dots : Bytes → Bool
is_dots line =
    get_or line 0 0 == b'.'
    && (get_or line 1 0 == 0
        || (get_or line 1 0 == b'.' && (get_or line 2 0 == 0 || is_control (get_or line 2 0))))

abbrev pub keeps : Bool → Bytes → Bool
keeps blank_lines line = if length line == 0 then blank_lines else not (is_dots line)

abbrev pub keep_line : Bool → Bytes → List Bytes → List Bytes
keep_line blank_lines line rest = if keeps blank_lines line then c_str line ∷ rest else rest

-- The loop of FTPListToMemory2, with a call of BufferGets in each round: the lines that it adds. AddLine
-- is taken to succeed.
unfoldable pub list_lines : ℕ → Bool → ℕ → Bytes → List Read → List Bytes
list_lines zero blank_lines bufsize pending rs = []
list_lines (suc k) blank_lines bufsize pending rs =
    let g = buffer_gets bufsize pending rs in
    let rest = list_lines k blank_lines bufsize g.pending g.reads in
    if is_over g then [] else keep_line blank_lines g.line rest
