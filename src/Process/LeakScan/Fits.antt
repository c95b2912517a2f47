-- ===== src/Process/LeakScan/Fits.antt =====
-- client/process.c: the message of `process_leaks_scan` fits into its buffer.
use mtrace.Base.{ℕ, suc, ◌+◌, ◌*◌, ◌≤◌, ◌≡◌, true, Option, none, some, length, total, All}
use mtrace.Message.Wire.{ptr_size}
use mtrace.Rbtree.{Trail, get}
use mtrace.Process.State.{RbBlock, Process, Env}
use mtrace.Process.Books.{blocks, one, Inv, Grown}
use mtrace.Process.LeakScan.{BlockHelper, ScanRequest, clear_bits}

-- What the walk keeps: the books, and a message with room for `n` words whose mask clears all of them.
pub record Walk (v : Env) (n : ℕ) (p : Process) (bh : BlockHelper) : Type 0 where
  pub inv : Inv v p
  pub size : total one (blocks p) ≡ n
  pub buffer : bh.payload_len ≡ 16 + n * ptr_size p.format
  pub counted : bh.len ≡ length bh.data_words
  pub aligned : All (λ a. clear_bits bh.mask a ≡ true) bh.data_words

-- After one block more.
pub record Stepped (v : Env) (n : ℕ) (p : Process) (bh : BlockHelper) (r : Process × BlockHelper)
    : Type 0 where
  pub walk : Walk v n r.0 r.1
  pub longer : length r.1.data_words ≤ suc (length bh.data_words)
  pub hits :
      (q : Trail) (y : RbBlock)
      → get p.block_table q ≡ some y
      → (z : RbBlock) × (get r.0.block_table q ≡ some z)
  pub realloc_list : r.0.realloc_list ≡ p.realloc_list
  pub stack_table : r.0.stack_table ≡ p.stack_table

-- The number is that of the addresses in the message, if one is sent, and the mask clears all of them.
abbrev pub Describes : ℕ → Option ScanRequest → Type 0
Describes n none = n ≡ 0
Describes n (some q) = (n ≡ length q.addrs) × All (λ a. clear_bits q.mask_bits a ≡ true) q.addrs

pub record Requested (v : Env) (p : Process) (r : (ℕ × Option ScanRequest) × Process) : Type 0 where
  pub grown : Grown v 0 p r.1
  pub bound : r.0.0 ≤ total one (blocks p)
  pub describes : Describes r.0.0 r.0.1
