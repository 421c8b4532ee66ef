-- ===== src/Proxy/Connections/Closed.antt =====
-- How often the pool of internal/proxy/connection.go closes a body, and what cleaning up removes.
use llmapi_gate_way.Common.{
  ℕ, ◌+◌, ◌≤◌, String, ◌≡◌, refl, sym, inl, inr, false, Option, none, some, List, [], ◌∷◌, arith,
  ◌==◌, some_inj, if◌then◌else◌, Bool-cases, Option-cases,
}
use llmapi_gate_way.Common.Assoc.{Assoc, lookup, insert, delete}
use llmapi_gate_way.Common.Time.{at}
use llmapi_gate_way.Proxy.Connections.{
  Connection, ConnectionManager, new_connection_manager, register, open_body, close_body, close,
  is_stale, cleanup_loop, cleanup_stale_connections, update_activity, Operation, registers, closes,
  cleans, updates, apply, run_all,
}

abbrev pub times : String → List String → ℕ
times b [] = 0
times b (x ∷ xs) = (if x == b then 1 else 0) + times b xs

abbrev weight : String → Option String → ℕ
weight b none = 0
weight b (some x) = if x == b then 1 else 0

-- How often a body stands open in the pool.
unfoldable pub open_times : String → Assoc Connection → ℕ
open_times b [] = 0
open_times b ((session_id, conn) ∷ rest) = weight b (open_body conn) + open_times b rest

-- How often it was registered, open.
abbrev pub registered_times : String → List Operation → ℕ
registered_times b [] = 0
registered_times b (registers session_id conn ∷ ops) =
    weight b (open_body conn) + registered_times b ops
registered_times b (closes session_id ∷ ops) = registered_times b ops
registered_times b (cleans now ∷ ops) = registered_times b ops
registered_times b (updates session_id now ∷ ops) = registered_times b ops

times-close_body :
    (b : String) (o : Option String) (bodies : List String)
    → times b (close_body o bodies) ≡ weight b o + times b bodies
times-close_body b none bodies = omega arith
times-close_body b (some x) bodies = refl

open_times-insert :
    (b session_id : String) (conn : Connection) (m : Assoc Connection)
    → open_times b (insert session_id conn m) ≤ weight b (open_body conn) + open_times b m
unfolding open_times insert
open_times-insert b session_id conn [] = omega arith
open_times-insert b session_id conn ((name, held) ∷ rest) =
    let later = open_times-insert b session_id conn rest in
    elim (Bool-cases (name == session_id)) [
      | inl same ↦ rw (same, insert) (omega arith)
      | inr other ↦ rw (other, insert) (omega arith)
    ]

open_times-delete_le :
    (b session_id : String) (m : Assoc Connection)
    → open_times b (delete session_id m) ≤ open_times b m
unfolding open_times delete
open_times-delete_le b session_id [] = omega arith
open_times-delete_le b session_id ((name, held) ∷ rest) =
    let later = open_times-delete_le b session_id rest in
    elim (Bool-cases (name == session_id)) [
      | inl same ↦ rw same (omega arith)
      | inr other ↦ rw other (omega arith)
    ]

open_times-delete :
    (b session_id : String) (conn : Connection) (m : Assoc Connection)
    → lookup session_id m ≡ some conn
    → weight b (open_body conn) + open_times b (delete session_id m) ≤ open_times b m
unfolding open_times delete lookup
open_times-delete b session_id conn [] h = absurd (cc h)
open_times-delete b session_id conn ((name, held) ∷ rest) h =
    elim (Bool-cases (name == session_id)) [
      | inl same ↦
          let found : held ≡ conn = some_inj (rw same at h) in
          let later = open_times-delete_le b session_id rest in rw (same, sym found) (omega arith)
      | inr other ↦
          let later = open_times-delete b session_id conn rest (rw other at h) in
          rw other (omega arith)
    ]

open_times-touch :
    (b session_id : String) (now : ℕ) (conn : Connection) (m : Assoc Connection)
    → lookup session_id m ≡ some conn
    → open_times b (insert session_id (record conn { last_activity = at now }) m) ≡ open_times b m
unfolding open_times insert lookup open_body
open_times-touch b session_id now conn [] h = absurd (cc h)
open_times-touch b session_id now conn ((name, held) ∷ rest) h =
    elim (Bool-cases (name == session_id)) [
      | inl same ↦
          let found : held ≡ conn = some_inj (rw same at h) in rw (same, insert, found) refl
      | inr other ↦
          let later = open_times-touch b session_id now conn rest (rw other at h) in
          rw (other, insert, later) refl
    ]

cleanup_loop-times :
    (b : String) (timeout now : ℕ) (m : Assoc Connection) (bodies : List String)
    → let (kept, bodies') = cleanup_loop timeout now m bodies in
      times b bodies' + open_times b kept ≡ times b bodies + open_times b m
unfolding cleanup_loop open_times
cleanup_loop-times b timeout now [] bodies = refl
cleanup_loop-times b timeout now ((session_id, conn) ∷ rest) bodies =
    elim (Bool-cases (is_stale timeout now conn)) [
      | inl stale ↦
          let later = cleanup_loop-times b timeout now rest (close_body (open_body conn) bodies) in
          let more = times-close_body b (open_body conn) bodies in
          rw (stale, cleanup_loop) (omega arith)
      | inr fresh ↦
          let later = cleanup_loop-times b timeout now rest bodies in
          rw (fresh, cleanup_loop) (omega arith)
    ]

apply-times :
    (b : String) (op : Operation) (cm : ConnectionManager)
    → times b (apply op cm).closed_bodies + open_times b (apply op cm).connections
      ≤ registered_times b (op ∷ []) + (times b cm.closed_bodies + open_times b cm.connections)
unfolding register close cleanup_stale_connections update_activity
apply-times b (registers session_id conn) cm =
    let more = open_times-insert b session_id conn cm.connections in omega arith
apply-times b (closes session_id) cm = elim (Option-cases (lookup session_id cm.connections)) [
  | inl missing ↦ rw (missing, close) (omega arith)
  | inr (conn, found) ↦
      let less = open_times-delete b session_id conn cm.connections found in
      let more = times-close_body b (open_body conn) cm.closed_bodies in
      rw (found, close) (omega arith)
]
apply-times b (cleans now) cm =
    let same = cleanup_loop-times b cm.timeout now cm.connections cm.closed_bodies in omega arith
apply-times b (updates session_id now) cm = elim (Option-cases (lookup session_id cm.connections)) [
  | inl missing ↦ rw (missing, update_activity) (omega arith)
  | inr (conn, found) ↦
      let same = open_times-touch b session_id now conn cm.connections found in
      rw (found, update_activity) (omega arith)
]

registered_times-cons :
    (b : String) (op : Operation) (ops : List Operation)
    → registered_times b (op ∷ ops) ≡ registered_times b (op ∷ []) + registered_times b ops
registered_times-cons b (registers session_id conn) ops = omega arith
registered_times-cons b (closes session_id) ops = omega arith
registered_times-cons b (cleans now) ops = omega arith
registered_times-cons b (updates session_id now) ops = omega arith

run_all-from :
    (b : String) (ops : List Operation) (cm : ConnectionManager)
    → times b (run_all ops cm).closed_bodies + open_times b (run_all ops cm).connections
      ≤ registered_times b ops + (times b cm.closed_bodies + open_times b cm.connections)
run_all-from b [] cm = omega arith
run_all-from b (op ∷ ops) cm =
    let first = apply-times b op cm in
    let later = run_all-from b ops (apply op cm) in
    let both = registered_times-cons b op ops in omega arith

-- Whatever calls the pool gets, in any order, a body is closed no more often than it was registered,
-- also counting those that still stand open.
pub run_all-times :
    (b : String) (ops : List Operation)
    → let cm = run_all ops new_connection_manager in
      times b cm.closed_bodies + open_times b cm.connections ≤ registered_times b ops
unfolding new_connection_manager open_times
run_all-times b ops = let all = run_all-from b ops new_connection_manager in omega arith

cleanup_loop-lookup :
    (session_id : String) (conn : Connection) (timeout now : ℕ) (m : Assoc Connection)
    (bodies : List String)
    → lookup session_id (cleanup_loop timeout now m bodies).0 ≡ some conn
    → is_stale timeout now conn ≡ false
unfolding cleanup_loop lookup
cleanup_loop-lookup session_id conn timeout now [] bodies h = absurd (cc h)
cleanup_loop-lookup session_id conn timeout now ((name, held) ∷ rest) bodies h =
    elim (Bool-cases (is_stale timeout now held)) [
      | inl stale ↦
          cleanup_loop-lookup session_id conn timeout now rest (close_body (open_body held) bodies)
            (rw (stale, cleanup_loop) at h)
      | inr fresh ↦ elim (Bool-cases (name == session_id)) [
        | inl same ↦
            let found : held ≡ conn = some_inj (rw (fresh, cleanup_loop, same) at h) in
            rw found at fresh
        | inr other ↦
            cleanup_loop-lookup session_id conn timeout now rest bodies
              (rw (fresh, cleanup_loop, other) at h)
      ]
    ]

-- After a cleanup no connection of the pool was idle for longer than the timeout.
pub cleanup_stale_connections-lookup :
    (session_id : String) (conn : Connection) (now : ℕ) (cm : ConnectionManager)
    → lookup session_id (cleanup_stale_connections now cm).connections ≡ some conn
    → is_stale cm.timeout now conn ≡ false
unfolding cleanup_stale_connections
cleanup_stale_connections-lookup session_id conn now cm h =
    cleanup_loop-lookup session_id conn cm.timeout now cm.connections cm.closed_bodies h
