-- ===== src/Threads/Current.antt =====
-- threads/thread.c: the functions that ask for the running thread.
use project2_group.Base.{ℕ, Run, ok, ◌>>=◌, ◌>>◌, assert}
use project2_group.Threads.Scheduler.{Kernel, running, is_status}

unfoldable pub thread_current : Kernel → Run ℕ
thread_current k = do assert (is_status (k.thread k.current).status running); ok k.current

unfoldable pub thread_tid : Kernel → Run ℕ
thread_tid k = do t ← thread_current k; ok (k.thread t).tid

unfoldable pub thread_get_priority : Kernel → Run ℕ
thread_get_priority k = do t ← thread_current k; ok (k.thread t).priority
