-- ===== src/Ls/Tests.antt =====
-- UnDosLine at concrete lines.
use ncftp.Base.{arith, ◌≡◌, refl, true, false, some, [], ◌∷◌}
use ncftp.Base.Bytes.{codes, digits_value}
use ncftp.Base.Int.{pos}
use ncftp.Ls.{ReadsNumbers, entry, overrun}
use ncftp.Ls.Unix.{LsParams}
use ncftp.Ls.Dos.{DosParams, un_dos_line}
use ncftp.Ls.Sizes.{file}
use ncftp.Ls.Times.{short}
use ncftp.Ls.DosLines.{Stamp, IsStamp, un_dos_line-written}

-- A reader of numbers.
reads_all : ReadsNumbers (λ digits. pos (digits_value 0 digits))
reads_all digits are some_digit small = refl

abbrev params : DosParams
params = record {
  clock = record {
    mktime = λ tm. some (tm.hour, tm);
    gmtime = λ t. record {
      year = pos 70;
      mon = pos 0;
      mday = pos 1;
      hour = pos 0;
      minute = pos 0;
      second = t;
    };
  };
  scan_lld = λ digits. pos (digits_value 0 digits);
  curdir = [];
  fnamesize = 512;
}

abbrev stamp : Stamp
stamp = record {
  m1 = b'0';
  m2 = b'4';
  d1 = b'2';
  d2 = b'7';
  year = short b'9' b'9';
  h1 = b'1';
  h2 = b'0';
  i1 = b'3';
  i2 = b'2';
  letter = b'P';
}

stamp-IsStamp : IsStamp stamp
stamp-IsStamp = record {
  month_ok = (refl, refl);
  day_ok = (refl, refl);
  year_ok = (refl, refl);
  hour_ok = (refl, refl);
  minute_ok = (refl, refl);
}

un_dos_line-written_example :
    un_dos_line params (codes "04-27-99  10:32PM    2,708 Game booklet.pdf")
    ≡ entry (record {
      fname = codes "Game booklet.pdf";
      ftype = b'-';
      fsize = pos 2708;
      ftime = pos 22;
    })
un_dos_line-written_example =
    un_dos_line-written params stamp 1 4 0
      (file b'2' ((true, b'7') ∷ (false, b'0') ∷ (false, b'8') ∷ [])) b'G' (codes "ame booklet.pdf")
      stamp-IsStamp tt (omega arith) (refl, (refl, (refl, (refl, tt)))) reads_all (omega arith) refl

-- A date alone is read past its end.
date_alone : un_dos_line params (codes "04-27-99") ≡ overrun
unfolding un_dos_line
date_alone = refl

abbrev ls_params : LsParams
ls_params = record {
  clock = params.clock;
  scan_lld = λ digits. pos (digits_value 0 digits);
  now = pos 0;
  thisyear = pos 2010;
  curdir = [];
  fnamesize = 256;
  linktosize = 256;
}
