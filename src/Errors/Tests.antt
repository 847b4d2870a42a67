-- ===== src/Errors/Tests.antt =====
-- Linux's numbers.
use pyzmq.Base.{◌≡◌, ◌↔◌, ◌⊎◌, ◌≢◌, true, none, some}
use pyzmq.Base.Int.{negsuc}
use pyzmq.Errors.{Errnos, Raised, errno_of, known_errno, check_rc}
use pyzmq.Errors.Laws.{check_rc_iff}

abbrev linux : Errnos
linux = record { eintr = 4; eagain = 11; eterm = 156384765 }

check_rc_iff_example :
    ((r : Raised) × (check_rc linux 4 (negsuc 0) none true ≡ some r)
      × (errno_of linux r ≡ linux.eintr))
    ↔ (negsuc 0 ≡ negsuc 0)
      × (known_errno 4 none ≡ linux.eintr)
      × ((linux.eintr ≢ 0) ⊎ (true ≡ true))
check_rc_iff_example = check_rc_iff linux 4 (negsuc 0) none true linux.eintr
