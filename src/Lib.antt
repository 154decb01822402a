-- ===== src/Lib.antt =====
-- Verification of the VMware SVGA driver of the DRM tree (vmwgfx), in part.
--
-- The driver feeds a virtual graphics device. Commands go through a ring in device memory, the
-- FIFO; the verifier of user command streams stages the resources that a stream creates and
-- removes; TTM and the DRM core give it a lock, a hash table and a range allocator. The parts that
-- are modelled, and their files:
--
-- * Fifo (vmwgfx_fifo.c, vmwgfx_drv.h): the FIFO registers and `struct vmw_fifo_state` are the record
--   `Fifo`. Fifo/Wait has `vmw_fifo_wait` and its polling form, Fifo/Reserve `vmw_fifo_reserve`,
--   Fifo/Commit `vmw_fifo_commit` with both copies. Fifo/Room, Fifo/Grant and Fifo/Progress are about
--   reservations, Fifo/Copy and Fifo/Submit about commits. What the host and the kernel do during a
--   call (the STOP register at each read, the end of a wait, `vmalloc`) is an argument, one record per
--   round of the loop; a call that uses the list up is `running`.
-- * Mm (drm_mm.c, drm_mm.h): the range allocator. The block list is a list in address order, a
--   pointer is the identity of a block, and what `kzalloc` returns is an argument. Mm/Get allocates,
--   Mm/Put releases, Mm/Search chooses a block, Mm/Scan is the eviction scan. Mm/Tiles says what a list
--   of blocks has in use; Mm/Release and Mm/Coalesce are about release, Mm/Cut, Mm/Hole and Mm/Allocate
--   about allocation, Mm/Aligned about alignment, Mm/Choice and Mm/Room about the searches, Mm/Request about a search with the allocation that
--   follows, Mm/Rescan about a scan that is undone. Searches are modelled outside a scan, where their
--   BUG_ON on `scanned_blocks` is not met.
-- * Hashtab (drm_hashtab.c, drm_hashtab.h): the chained hash table, with `hash_long` as a parameter.
--   Hashtab/Chain is about one chain, Hashtab/Lookup about the table as a map, Hashtab/Keys about the
--   search for a free key. The loop of `drm_ht_just_insert_please` runs on 2 ^ bits rounds of fuel: it
--   counts up modulo 2 ^ bits until it is back at its start.
-- * Objects (ttm/ttm_object.c, ttm/ttm_object.h): base objects and the references of files on them. The
--   hash tables are the maps that Hashtab/Lookup shows them to be; what other threads do between the
--   sections of `ttm_ref_object_add` is an argument. The loop that closes a file runs on a round for
--   each reference object. Objects/Balance and Objects/Refs are about the counts, Objects/Close about a
--   file that is closed, Objects/Steps about any sequence of calls, Objects/Races about any interleaving of their
--   sections, Objects/Init about a new object. `ttm_ref_object_exists` tells objects of one key apart,
--   which the model does not, and is left out.
--   The creation of devices and files, and prime objects, are not modelled.
-- * CmdbufRes (vmwgfx_cmdbuf_res.c): staging of additions and removals, on the hash table.
--   CmdbufRes/Stage, CmdbufRes/Undo, CmdbufRes/Removal and CmdbufRes/Readd follow what is staged to
--   its revert.
-- * Lock (ttm/ttm_lock.c, ttm/ttm_lock.h): each critical section of the spinlock is a function, and
--   Lock/Exclusion has any interleaving of them as a step relation. Lock/Waiting is about waiters.
-- * Overlay (vmwgfx_overlay.c): the video stream, of which there is one. Whether commands are sent and
--   buffers are moved is an argument; a call that meets BUG() has no result. Overlay/Shown is about
--   stopping and starting, Overlay/Steps about any sequence of calls.
-- * Marker (vmwgfx_marker.c): the queue of submission times; Marker/Pull is about what is taken off it.
--   The clock is an argument, the kernel's `timespec_sub` a parameter. `vmw_wait_lag` is not modelled.
-- * Seqno (vmwgfx_irq.c): sequence numbers, the waits for them, and the counted interrupt waiters. What
--   the device does is an argument, one record per look at it. Seqno/Passed, Seqno/Fallback and
--   Seqno/Waiters are about the test, the wait without interrupts and the counts. The interrupt handler
--   is not modelled; calls of `vmw_fences_update`, which is in Fence, are counted.
-- * Fence (vmwgfx_fence.c, vmwgfx_fence.h): the fence manager. Fences and actions are numbers, those
--   that passed are kept in a list of their own, and the reads of the FENCE register are an argument; an
--   update that uses them up has no result. Fence/Pass is about the fences that pass, Fence/Goal about
--   the goal, Fence/Books and Fence/Steps about the counts, under any sequence of operations. User
--   fences, event actions and the ioctls are not modelled.
-- * Verifier (vmwgfx_execbuf.c, svga3d_reg.h): Verifier/Commands has the commands with their numbers and
--   the table of checks, Verifier the walk over a stream and the growth of the bounce buffer. A stream is
--   read through `word`, and the checks of single commands are the argument `func`, which may change the
--   stream. The walk runs on a round of fuel for each byte and one more, which is enough unless it comes
--   to a command of no bytes. Verifier/User, Verifier/Walk and Verifier/Stuck are about one command,
--   the walk, and a stream without end; Verifier/Bounce is about the buffer.
-- * Validate (vmwgfx_execbuf.c): the validation list, on the hash table, with the relocations.
--   Validate/Listed and Validate/New are about listing, Validate/Reach about any sequence of additions
--   up to one that fails, Validate/Apply, Validate/Emptied and Validate/Clear about what follows.
-- * Memory (ttm/ttm_memory.c, ttm/ttm_memory.h): the zones with their limits, without CONFIG_HIGHMEM.
--   The shrink callback is a parameter; the loop of `ttm_shrink` runs on as many rounds as there are bytes in
--   use, which is enough where each success of the callback frees some. Memory/Charges is about the
--   counts, Memory/Shrink about allocation, Memory/RoundPot about the rounding of sizes.
-- * Gmrid (vmwgfx_gmrid_manager.c): the ids and the page count of GMRs and MOBs, with what the kernel's
--   `ida` returns as an argument; Gmrid/Pages is about the limits.
-- Prelude has what the modules share: Boolean tests, lists by native numbers, machine words (32 and
-- 64 bits, sums and differences modulo 2 ^ w) and the errno results. Each module's Tests has the
-- theorems at concrete inputs.
--
-- Memory barriers, spinlocks and log output have no effect in the model; a mutex is a flag where its
-- holder matters. The rest of the driver (checks of single commands, surfaces, contexts, mode
-- setting), of TTM and of the DRM core is not modelled.
pub mod Prelude
pub mod Fifo
pub mod Marker
pub mod Seqno
pub mod Fence
pub mod Verifier
pub mod Validate
pub mod Memory
pub mod Mm
pub mod Gmrid
pub mod Hashtab
pub mod Objects
pub mod CmdbufRes
pub mod Lock
pub mod Overlay
