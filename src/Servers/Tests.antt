-- ===== src/Servers/Tests.antt =====
-- The programs in concrete runs.
use high_performance_linux_s.Servers.Writev.{send_file_to}
use high_performance_linux_s.SystemCalls.Leads.{Leads}
use high_performance_linux_s.Servers.Writev.Answer.{IsRefused, IsAnswered, send_file_to-Leads}
use high_performance_linux_s.SystemCalls.{World}
use high_performance_linux_s.Servers.Daytime.{
  get_server_by_name, HasFilled, HasRoom, get_server_by_name-EndsOr,
}
use high_performance_linux_s.Servers.Sample.{libc, returning, two_arguments}
use high_performance_linux_s.Servers.{listener, address_of, new_socket, bind_listen}
use high_performance_linux_s.Base.{◌≡◌, refl, List, [], ◌∷◌, pos}
use high_performance_linux_s.SystemCalls.{call, argument, Reply, Address}
use high_performance_linux_s.SystemCalls.Descriptors.{
  EndsOr, Ends, ends_done, Holds, replay, works_on, after, start,
}
use high_performance_linux_s.Servers.Tcp.{tcp_recv, tcp_send, tcp_send_buffer_size}
use high_performance_linux_s.Servers.Files.{dup_main, accept_connection, listen_backlog}
use high_performance_linux_s.Servers.Clean.{EndsClean, servers-clean}
use high_performance_linux_s.Servers.Select.{select_main}
use high_performance_linux_s.Servers.Select.Run.{HasGivenUp, HasServed, select_main-EndsOr}

-- A socket 3, and a connection 4.
abbrev replies : List Reply
replies =
    returning (pos 3)
    ∷ returning (pos 0)
    ∷ returning (pos 0)
    ∷ returning (pos 4)
    ∷ returning (pos 2)
    ∷ returning (pos 0)
    ∷ returning (pos 0)
    ∷ returning (pos 0)
    ∷ returning (pos 0)
    ∷ []

-- dup.cc with a connection 4, of which `dup` makes descriptor 1: the text is written there at the end.
dup_run :
    let replies =
      returning (pos 3)
      ∷ returning (pos 0)
      ∷ returning (pos 0)
      ∷ returning (pos 4)
      ∷ returning (pos 0)
      ∷ returning (pos 1)
      ∷ returning (pos 0)
      ∷ returning (pos 0)
      ∷ returning (pos 5)
      ∷ [] in
    Ends
      (λ code w. (code ≡ 0) × Holds (pos 1 ∷ pos 0 ∷ pos 2 ∷ []) w)
      (dup_main libc two_arguments (start replies))
unfolding dup_main listener call replay works_on after address_of argument new_socket bind_listen
dup_run = ends_done (refl, record { held = refl; fine = refl })

servers-clean_example :
    let w = start replies in
    EndsClean (tcp_recv libc two_arguments w)
    × EndsClean (tcp_send libc two_arguments w)
    × EndsClean (tcp_send_buffer_size libc two_arguments w)
    × EndsClean (accept_connection libc two_arguments w)
    × EndsClean (listen_backlog libc two_arguments w)
servers-clean_example = servers-clean libc two_arguments replies

abbrev address : Address
address = record { ip = 1; port = 80 }

select_main-EndsOr_example :
    EndsOr HasGivenUp
      (λ _ w. HasServed two_arguments w)
      (select_main libc two_arguments (start replies))
select_main-EndsOr_example = select_main-EndsOr libc two_arguments replies

-- A read of as many bytes as the buffer has.
get_server_by_name-EndsOr_example : EndsOr HasFilled HasRoom (
    get_server_by_name ([] ∷ (b'h' ∷ []) ∷ []) (
      start (
        returning (pos 0)
        ∷ returning (pos 0)
        ∷ returning (pos 3)
        ∷ returning (pos 0)
        ∷ returning (pos 128)
        ∷ [])))
get_server_by_name-EndsOr_example =
    get_server_by_name-EndsOr ([] ∷ (b'h' ∷ []) ∷ []) (returning (pos 0)) (returning (pos 0))
      (returning (pos 3)) (returning (pos 0) ∷ returning (pos 128) ∷ []) refl

-- A file of three bytes.
abbrev file_replies : World
file_replies = start (
    record (returning (pos 0)) { value = 3 }
    ∷ returning (pos 5)
    ∷ record (returning (pos 3)) { bytes = b'a' ∷ b'b' ∷ b'c' ∷ [] }
    ∷ returning (pos 41)
    ∷ returning (pos 0)
    ∷ [])

send_file_to-Leads_example :
    Leads
      (IsRefused (b'f' ∷ []) file_replies)
      (λ _ w. IsAnswered (b'f' ∷ []) (pos 4) file_replies w)
      (send_file_to (b'f' ∷ []) (pos 4) file_replies)
send_file_to-Leads_example = send_file_to-Leads (b'f' ∷ []) (pos 4) file_replies
