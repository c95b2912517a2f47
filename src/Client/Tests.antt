-- ===== src/Client/Tests.antt =====
-- client/client.c: a run of the client.
use mtrace.Base.{subst, ℕ, false, ◌≡◌, refl, arith, true, some, List, [], ◌∷◌, ◌++◌, ok}
use mtrace.Rbtree.{Tree, leaf, node, red, black, rb_link_node}
use mtrace.Rbtree.Plain.{plain, cut}
use mtrace.Client.Config.{
  keyword, _parse_config, parse_loop, parse_line, cmp_n, cmp_from, trim_space, count_while, byte,
  strndup, add_valid,
}
use mtrace.Client.Config.Total.{Parsed, _parse_config-Parsed}
use mtrace.Client.Pids.{
  pid_rb_search, pid_place, process_rb_insert, pid_rb_delete, client_add_process,
  client_find_process, client_first_process,
}
use mtrace.Client.Pids.Lookup.{Inserted, process_rb_insert-Inserted, Deleted, pid_rb_delete-Deleted}
use mtrace.Message.{mt_mmap, mt_realloc_enter}
use mtrace.Process.State.{Process}
use mtrace.Process.Handlers.{AllocPayload}
use mtrace.Process.Resolv.{IsMapped}
use mtrace.Process.Books.{Grown}
use mtrace.Process.Tests.{
  program, env, fresh_process, fresh-Inv, alloc_msg, free_msg, payload, p1, p2,
}
use mtrace.Client.Dispatch.{handler, handle}
use mtrace.Client.Reach.{Reach, here, next, step, Reach-Grown}

same_payload : (a m : AllocPayload) → ok a ≡ ok m → a ≡ m
same_payload a m e = cc

payload-IsMapped :
    (p : Process) (a m : AllocPayload)
    → IsMapped p a.data_bytes
    → ok a ≡ ok m
    → IsMapped p m.data_bytes
payload-IsMapped p a m h e =
    subst (λ (x : AllocPayload). IsMapped p x.data_bytes) (same_payload a m e) h

-- Neither message has a whole address in its call stack.
two_messages : Reach env fresh_process 2 p2
unfolding program handler handle
two_messages =
    next
      (next here (
        step false mt_mmap alloc_msg refl
          (λ m e. payload-IsMapped fresh_process (payload 4096 100 (1 ∷ 2 ∷ [])) m tt e) refl))
      (step false mt_realloc_enter free_msg refl
        (λ m e. payload-IsMapped p1 (payload 4096 7 (5 ∷ [])) m tt e) refl)

Reach-Grown_example : Grown env 4 fresh_process p2
unfolding program
Reach-Grown_example = Reach-Grown env fresh_process p2 2 fresh-Inv (omega arith) two_messages

-- "# x", and "ignore ab " where every expression is valid.
abbrev config : List ℕ
config = 35 ∷ 32 ∷ 120 ∷ 10 ∷ keyword ++ 32 ∷ 97 ∷ 98 ∷ 32 ∷ []

config_result : _parse_config (λ e. true) config 14 [] ≡ ok ((97 ∷ 98 ∷ []) ∷ [])
unfolding _parse_config parse_loop parse_line cmp_n cmp_from trim_space count_while byte strndup
    add_valid
config_result = refl

_parse_config-Parsed_example : Parsed (λ e. true) [] ((97 ∷ 98 ∷ []) ∷ [])
unfolding _parse_config parse_loop parse_line cmp_n cmp_from trim_space count_while byte strndup
    add_valid
_parse_config-Parsed_example = _parse_config-Parsed (λ e. true) config 14 [] (omega arith)

-- A table of pids.
abbrev same : ℕ → ℕ
same n = n

abbrev table : Tree ℕ
table = node black (node red leaf 3 leaf) 5 leaf

process_rb_insert-Inserted_example :
    Inserted same plain table 4 (process_rb_insert same plain table 4)
unfolding cut
process_rb_insert-Inserted_example =
    process_rb_insert-Inserted same plain table 4 tt ((omega arith, tt), (tt, tt))

pid_rb_delete-Deleted_example : Deleted same plain table 3 (pid_rb_delete same plain table 3)
unfolding cut
pid_rb_delete-Deleted_example =
    pid_rb_delete-Deleted same plain table 3 tt ((omega arith, tt), (tt, tt))

first_process : client_first_process same 5 table ≡ some 5
unfolding client_first_process client_find_process pid_rb_search
first_process = refl

added_first : client_add_process same plain 0 leaf 7 ≡ (7, node red leaf 7 leaf)
unfolding cut client_add_process process_rb_insert pid_place rb_link_node
added_first = refl
