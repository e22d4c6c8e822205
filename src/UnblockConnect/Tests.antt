-- ===== src/UnblockConnect/Tests.antt =====
-- An attempt that is refused at once.
use high_performance_linux_s.Base.{◌≡◌, refl, true, false, some, pos, negsuc}
use high_performance_linux_s.UnblockConnect.{
  Results, unblock_connect, set_non_blocking, made_socket, with_flags, unblock_connect_main,
}

abbrev refused : Results
refused = record {
  sock_fd = pos 3;
  flags = pos 2;
  got = true;
  non_blocking = λ f. pos 2050;
  changed = true;
  connect = negsuc 0;
  in_progress = false;
  select = pos 0;
  writable = false;
  getsockopt = pos 0;
  error = pos 0;
  restored = true;
}

-- The socket of an attempt that was refused is left open.
main_leaves_open :
    unblock_connect_main 3 refused ≡ some (1, some (record { is_open = true; flags = pos 2050 }))
unfolding unblock_connect_main unblock_connect set_non_blocking made_socket with_flags
main_leaves_open = refl

-- No socket is made: -1 is returned, and none is left open.
main_without_socket :
    let r = record refused { sock_fd = negsuc 0; got = false; changed = false } in
    unblock_connect_main 3 r ≡ some (1, some (record { is_open = false; flags = pos 2 }))
unfolding unblock_connect_main unblock_connect set_non_blocking made_socket with_flags
main_without_socket = refl
