-- ===== src/Prelude/Errno.antt =====
-- include/LySys/errno.h: the error numbers that the modelled functions return, negated.
use Prim.Native.Nat.{ℕ}

abbrev pub esuccess : ℕ
esuccess = 0

abbrev pub eperm : ℕ
eperm = 1

abbrev pub enoent : ℕ
enoent = 2

abbrev pub esrch : ℕ
esrch = 3

abbrev pub enomem : ℕ
enomem = 12

abbrev pub eacces : ℕ
eacces = 13

abbrev pub eexist : ℕ
eexist = 17

abbrev pub enotdir : ℕ
enotdir = 20

abbrev pub einval : ℕ
einval = 22

abbrev pub enospc : ℕ
enospc = 28
