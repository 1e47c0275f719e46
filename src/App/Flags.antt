-- ===== src/App/Flags.antt =====
-- `calcFlag` of lib/src/http.cc, and the flags of `HttpImplement::startMHDDaemon`.
use cppmhd.Prelude.{ℕ, ◌+◌, ◌≡◌, Bool, true, false, List, [], ◌∷◌, ◌++◌, if◌then◌else◌, arith}

-- The flags of libmicrohttpd that the source names; a set of them is a list.
pub data Flag : Type 0 where
  suppress_date turbo debug tcp_fastopen epoll_thread poll_thread auto_thread dual_stack : Flag

-- Which features libmicrohttpd says that it supports, and whether the build has assertions.
pub record Features : Type 0 where
  pub fastopen : Bool
  pub epoll : Bool
  pub poll : Bool
  pub assertions : Bool

abbrev pub when : Bool → Flag → List Flag
when b f = if b then f ∷ [] else []

-- The one way of waiting for connections that is chosen.
unfoldable pub thread_flag : Features → Flag
thread_flag has = if has.epoll then epoll_thread else if has.poll then poll_thread else auto_thread

unfoldable pub calc_flag : Features → List Flag
unfolding thread_flag
calc_flag has =
    (suppress_date ∷ (turbo ∷ []))
    ++ (when has.assertions debug ++ (when has.fastopen tcp_fastopen ++ thread_flag has ∷ []))

-- The flags that each daemon is started with.
unfoldable pub daemon_flags : Features → Bool → List Flag
unfolding calc_flag
daemon_flags has v6 = calc_flag has ++ when v6 dual_stack

abbrev pub is_thread_flag : Flag → Bool
is_thread_flag epoll_thread = true
is_thread_flag poll_thread = true
is_thread_flag auto_thread = true
is_thread_flag _ = false

abbrev pub is_dual_stack : Flag → Bool
is_dual_stack dual_stack = true
is_dual_stack _ = false

abbrev pub count_flags : (Flag → Bool) → List Flag → ℕ
count_flags p [] = 0
count_flags p (f ∷ fs) = (if p f then 1 else 0) + count_flags p fs

-- Whatever libmicrohttpd supports, a daemon waits for connections in one way, and it serves both
-- families exactly if its address is a v6 one.
pub daemon_flags-count_flags :
    (has : Features) (v6 : Bool)
    → (count_flags is_thread_flag (daemon_flags has v6) ≡ 1)
      × (count_flags is_dual_stack (daemon_flags has v6) ≡ (if v6 then 1 else 0))
unfolding daemon_flags calc_flag thread_flag
daemon_flags-count_flags has v6 = (ground arith, ground arith)
