-- ===== src/Support/Defs.antt =====
-- src/initSupp.c. The links of every `support_t`, and the top of the stack of free ones.
use progetto_so.Base.{
  Ptr, null, update, guard_ptr, not, ◌==◌, if◌then◌else◌, Cmd, ok, pure, ◌>>=◌, ◌>>◌,
}

pub record Supps : Type 0 where
  pub next_supp : Ptr → Ptr
  pub prev_supp : Ptr → Ptr
  pub free_supp_tp : Ptr

abbrev load_prev : Ptr → Cmd Supps Ptr
load_prev p = guard_ptr p >> λ s. ok (s.prev_supp p) s

abbrev set_next_supp : Ptr → Ptr → Cmd Supps (Unit {0})
set_next_supp p v = guard_ptr p >> λ s. ok tt (record s { next_supp = update s.next_supp p v })

abbrev set_prev_supp : Ptr → Ptr → Cmd Supps (Unit {0})
set_prev_supp p v = guard_ptr p >> λ s. ok tt (record s { prev_supp = update s.prev_supp p v })

abbrev top : Cmd Supps Ptr
top s = ok s.free_supp_tp s

abbrev set_top : Ptr → Cmd Supps (Unit {0})
set_top p s = ok tt (record s { free_supp_tp = p })

unfoldable pub alloc_supp : Cmd Supps Ptr
alloc_supp = do
  supp ← top
  if supp == null then pure null else do
    before ← load_prev supp
    if not (before == null) then (do set_top before; set_next_supp before null) else set_top null
    set_prev_supp supp null
    set_next_supp supp null
    pure supp

unfoldable pub dealloc_supp : Ptr → Cmd Supps (Unit {0})
dealloc_supp supp = if supp == null then pure tt else do
  old ← top
  if old == null then (do set_top supp; set_prev_supp supp null; set_next_supp supp null) else (do
    set_next_supp supp null
    set_prev_supp supp old
    set_next_supp old supp
    set_top supp)
