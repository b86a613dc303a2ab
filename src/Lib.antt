-- ===== src/Lib.antt =====
-- rockchip-kmpp: the core of Rockchip's video codec library for the Linux kernel.
--
-- The library drives hardware encoders. What it decides itself is modelled here: which frame of a
-- stream refers to which, where the output of the hardware goes, and how headers are written bit by
-- bit. The parts, from the repository's root, and the files that model them:
--
-- - Prelude: shared names, lists measured by native numbers, 32-bit words as numbers below 2 ^ 32
--   with their wrap written out, signed integers, `|` and `&` as arithmetic, steps that may fault.
-- - BitWriter, vcodec/mpp/base/mpp_bitwrite.c: the MppWriteCtx is the record WriteCtx, with the
--   memory as a function of the address; put_bits is mpp_writer_put_bits, and so on. Payload says
--   what a reader of an H.264 or H.265 stream takes from the written bytes, Put that put_bits adds
--   the digits of its value to that, Golomb and Align the same of the Exp-Golomb codes and the
--   trailing bits; Raw is about a start code, Signed about signed codes, Bytes about the memory
--   around.
-- - BitReader, vcodec/mpp/base/mpp_bitread.c: the BitReadCtx_t is the record ReadCtx. Unread is
--   what a reader has before it, as the digits behind the escapes; Bits, Golomb and Skip say what
--   the calls take from that, Items and Trip join the reader to the writer.
-- - RefTypes, vcodec/inc/rk_venc_ref.h, vcodec/inc/mpp_rc_defs.h,
--   vcodec/mpp/base/inc/mpp_enc_ref.h: the reference modes, EncFrmStatus and the configurations.
-- - Cpb, the static functions of vcodec/mpp/base/mpp_enc_refs.c: the virtual coded picture buffer.
--   History is the specification, a list of the reference frames since the last IDR frame and what
--   each mode means on it; Track and Find show that the cells of the buffer answer as the history
--   does.
-- - EncRefs, the interface of the same file: configuration, forced settings, stash and rollback;
--   NextFrame is mpp_enc_refs_get_cpb in its steps, Dryrun is mpp_enc_refs_dryrun. Refine carries
--   the specification through a whole call, Reach through every sequence of calls, Total shows that
--   a call does not fault, Intra when a frame is intra, Depth and Sizes how far back the frames of
--   a dry run refer and what it finds.
-- - RefCheck, vcodec/mpp/base/mpp_enc_ref.c: the configurations that users build; Accepts is about
--   the check, Fill about added entries, Again about a second check.
-- - Presets, vcodec/mpp/base/mpp_enc_refs_setup.c: the configurations for layered encoding, which
--   go through the calls of RefCheck; Pyramid and Layers are about their temporal layers, Accepted
--   about the check.
-- - H264, vcodec/mpp/codec/enc/h264e/h264e_sps.c and h264e_pps.c: the parameter sets of H.264.
--   Packet is the part of vcodec/mpp/base/mpp_packet.c that they are written into, Chain writes a
--   row of calls of the bit writer, Nal is the NAL unit around. SpsWrite and PpsWrite are the
--   writers, in the groups of the syntax; each has its syntax as a list of fields (Syntax), for the
--   sets that it has the fields for, and Trip reads the fields back. SpsUpdate is h264e_sps_update:
--   Fields, Level and Size are about the set, the level and the picture that it makes of a
--   configuration. pps_update stands with the writer. Dpb is
--   vcodec/mpp/codec/enc/h264e/h264e_dpb.c: Free, Slots and Find are its loops, Place and Numbers
--   say where a frame goes and how it is numbered. Marking is the marking of h264e_dpb.c and the
--   queues of h264e_slice.c that it fills, Slice what h264e_slice_update puts into a slice header.
-- - Maths, vcodec/osal/mpp_maths.c: the binary logarithm and what else the others need of it.
-- - RcData, vcodec/mpp/codec/rc/rc_base.c: the statistics of the rate control. Window shows that
--   they keep the last values, Mean is about their mean.
-- - HalTask, vcodec/mpp/hal/hal_task.c: the tasks of the hardware layer and their lists by status;
--   Partition shows that every task stands in the list of its status and in no other.
-- - MemPool, vcodec/mpp/base/mpp_mem_pool.c: the pool of equal blocks. Calls is about one caller,
--   Race about two. Links has the linked lists that MemPool and HalTask share.
-- - StreamRing, vcodec/mpp/base/mpp_stream_ring_buf.c: the ring of stream memory. Place is what a
--   request gets, Queue the ring as a queue of segments at their positions.
--
-- The encoder asks the reference manager, which a preset has configured, for a plan for each frame,
-- writes its headers by the bit writer into a buffer that the ring has placed, lets the hardware
-- write behind them, and puts the used part into the ring until the user has read it. The bit
-- writer and the ring share the memory of that buffer; the reference manager shares nothing with
-- either.
--
-- State is passed explicitly: an operation takes the record and returns the new one, with the
-- return code where the code has one. A fault of the C code (an access outside of an array, through
-- a null pointer, a remainder by zero) is `none`, but for three that are only told where they
-- stand: the remainder by the length of an empty ring, a search for a slot of the picture buffer of
-- H.264 over more slots than there are, and a sum of repeats of 2 ^ 31 and more. A configuration of
-- the references that a manager is set for is taken not to change while it is. What C leaves
-- undefined on the stack is an argument. Loops are structural recursion on the number of rounds
-- that the code's own bound gives. Those of the bit reader have fuel: a round more than the bits
-- that are asked for, or than the bits that are left, since each round but the first takes a bit;
-- that this is enough is part of what is shown of them. Arrays whose index the code masks to the
-- array's size are functions of the index.
--
-- Not modelled: null checks of handles, which come first in each function and return an error; log
-- output and assertions, which only log; failed allocations. The rest of the repository is not
-- modelled: the decisions of the rate control; the reference lists and the sliding window of H.264,
-- and all of H.265; the buffers and packets with their counts; the queues of the kernel service.
-- Nor is the programming of registers and the glue of the kernel driver, which hold no decisions of
-- their own.
pub mod Prelude
pub mod BitReader
pub mod BitWriter
pub mod RefTypes
pub mod Cpb
pub mod EncRefs
pub mod StreamRing
pub mod RefCheck
pub mod Presets
pub mod RcData
pub mod Links
pub mod H264
pub mod Maths
pub mod HalTask
pub mod MemPool
