-- ===== src/Replies/Errors.antt =====
-- cleanup_bufs and handle_error of src/zk/zookeeper.c.
use ext_zookeeper.Prelude.{ℕ, Bool, true, [], ◌==◌, not, map, if◌then◌else◌}
use ext_zookeeper.Codes.{connected_state, connecting_state}
use ext_zookeeper.Watchers.{Hashtable}
use ext_zookeeper.Paths.{is_unrecoverable}
use ext_zookeeper.Session.{Notified, free_completions}
use ext_zookeeper.Client.{ZHandle, Surroundings, path_handle, state_of}
use ext_zookeeper.Replies.Defs.{
  Effect, wakes, answers_auth, no_value, Step, pure, ◌>>=◌, ◌>>◌, get, modify, emit, demand,
}
use ext_zookeeper.Replies.Completing.{queue_session_event, process_if_async}

-- A caller that free_completions wakens has no values.
abbrev pub woken : Notified → Effect
woken n = wakes n.sc n.rc no_value

module _ {ht : Hashtable} where
  abbrev pub unrecoverable : ZHandle ht → Bool
  unrecoverable zh = not (is_unrecoverable (path_handle zh) == 0)

  -- The queues are emptied, and the completions told.
  unfoldable pub cleanup_bufs : Surroundings → Bool → ℕ → Step ht (Unit {0})
  cleanup_bufs env call rc = do
    modify (λ zh. record zh { to_send = []; to_process = [] })
    zh ← get
    freed ← demand (free_completions env.heap env.sync_marker zh.requests call rc)
    modify (λ zh. record zh { requests = freed.0 })
    emit (map woken freed.1)
    emit (map answers_auth freed.2)

  -- A call whose result is dropped.
  abbrev pub ignored : Step ht ℕ → Step ht (Unit {0})
  ignored m = m >>= λ rc. pure tt

  -- The watchers are told why the connection is lost.
  abbrev pub announce : Surroundings → ZHandle ht → Step ht (Unit {0})
  announce env zh =
      if unrecoverable zh
      then ignored (queue_session_event env (state_of zh))
      else if state_of zh == connected_state
      then ignored (queue_session_event env connecting_state)
      else pure tt

  -- `if (!is_unrecoverable(zh)) zh->state = 0;`
  abbrev pub reset_state : ZHandle ht → ZHandle ht
  reset_state zh = if unrecoverable zh then zh else record zh {
    requests = record zh.requests { auth = record zh.requests.auth { state = 0 } };
  }

  -- The socket and the server's index are not part of the handle here.
  unfoldable pub handle_error : Surroundings → ℕ → Step ht (Unit {0})
  handle_error env rc = do
    zh ← get
    announce env zh
    cleanup_bufs env true rc
    modify reset_state
    process_if_async env.heap
