-- ===== src/Lib.antt =====
-- v100-skinny: the dispatch, loading and bookkeeping logic of the Python patches that make vLLM
-- serve 4-bit and 8-bit weights on V100 GPUs.
--
-- The program. fork_patches/ holds files that replace those of vLLM. marlin.py serves NVFP4
-- layers: when a layer is loaded, its weight is packed in the fragment order of the CUDA kernels
-- (QPN), beside or in place of the copy that the marlin kernel reads; a call of a layer chooses a
-- kernel by its number of rows, its shape and the resident copies; the first calls are compared
-- with marlin, and a mismatch turns the kernels off; the logits weight (lm_head) has a 4-bit path
-- of its own, with its codes loaded from the checkpoint. modelopt.py serves FP8 layers in the same
-- way: its packing releases the original weight, and its dispatch has the same bands.
-- cuda_communicator.py chooses who reduces a message over the ranks. gdn_attn.py keeps the state
-- slots of the Gated DeltaNet layers under speculative decoding, splits the tokens of a batch and
-- keeps the buffers that captured graphs read. flash_attn_v100.py makes the metadata of the
-- attention kernels: the masks of trees of drafts, the views of the paged KV cache, the rows by
-- which a small query runs as a decode, and the buffers of captured graphs. torch_utils.py and
-- attention.py settle the dtype of the KV cache and lay out its NVFP4 pages.
--
-- The parts.
-- - Tensor: buffers, tensors and loops over `range`. A contiguous tensor is a row-major storage, a
--   function from offsets to values, so that `view` is no operation and what `torch.empty` leaves
--   is an argument of the definitions that allocate.
-- - Skinny/Env: the switches of fork_patches/marlin.py. Skinny/Layout, Skinny/Prepack:
--   `_qpn_prepack` and `_qpn_unprepack`, with their loops over chunks of tiles. Skinny/Config:
--   `_QPN2_TABLE`, `_qpn2_cfg` and the multi-tile geometry. Skinny/Route: `_skinny_linear`;
--   `route` is the name that it logs, `kernel` the return that it takes. Skinny/Layer:
--   `_qpn_stash`, `_skip_marlin_build`, `_stashing_prepare` and `process_weights_after_loading`.
--   Skinny/SelfCheck: `apply_weights` with the globals `_skinny_ok` and `_self_checks_done`.
--   Skinny/LmHead: `_lmhead_load_native`, `_skinny_embed_apply` and `_skinny_embed_pw`;
--   Skinny/LmHead/Uncached says what a call answers if nothing is cached. Skinny/Wmma: the launch
--   checks of `skinny_gemm_wmma` of kernels/skinny_kernels.cu, on the rows and the shape.
-- - Qpn8/Pack, Qpn8/Scales, Qpn8/Dispatch, Qpn8/Load: `_sm70_qpn8_prepack` and
--   `_sm70_qpn8_unpack`; `_sm70_qpn8_tile_scales` against `_sm70_fp8_reference_linear`;
--   `_sm70_qpn8_linear` and `_sm70_fp8_apply`; `_sm70_qpn8_stash` and `_sm70_fp8_process`, all of
--   fork_patches/modelopt.py.
-- - AllReduce, AllReduce/Norm, AllReduce/Selection: `__init__`, `all_reduce`, `_all_reduce_stock`,
--   `all_reduce_sum2`, `sm70_tp2_all_reduce_gemma_rms_norm` and
--   `_log_all_reduce_backend_selection` of `CudaCommunicator` in
--   fork_patches/cuda_communicator.py. A failed assertion is `none`.
-- - Gdn/Contract: `gather_gdn_state_block_ids`, `select_gdn_state_block_ids` and
--   `build_gdn_spec_decode_state_contract` of fork_patches/gdn_attn.py; an exception is `none`.
--   Gdn/Metadata: `gdn_spec_metadata_tensors` and its registry. Gdn/Batch:
--   `GDNAttentionMetadataBuilder.build` for a batch with speculative requests, where it builds the
--   contract; Gdn/Plain: the same for a batch without. Gdn/Fast: what
--   `_build_fast_pure_ddtree_full_graph` and `build` write to the persistent buffers, with
--   `_ddtree_fast_tail_key` and the `_GDNDdTreeFastCommonBuffers`. Gdn/Fast/Kernel:
--   `_ddtree_gdn_fast_metadata_kernel`, which does the writes of a fast build by default.
--   Gdn/Eligible: the conditions of `_build_fast_pure_ddtree_full_graph` and the request that it
--   writes. Gdn/Pure: `pure_ddtree_spec_fast_path` of `build`, by which a batch of speculative
--   requests alone takes its slots, and the contract for the others. Gdn/Index: the token indices
--   with `_spec_token_indx_initialized_size`.
-- - Flash/Tree: `_build_ddtree_visibility_mask` of fork_patches/flash_attn_v100.py, a row of the
--   mask being a function of the key; Flash/Tree/Parents: `_ddtree_triton_parent_ids_for_query`.
--   Flash/Pages: `_contiguous_paged_start_block`, `_contiguous_paged_kv_view` and the loop of
--   `_extract_contiguous_kv_from_paged_cache`. Flash/Live:
--   `_normalize_query_start_loc_for_available_tokens`. Flash/Smallq:
--   `_ensure_smallq_decode_buffers` and `_update_smallq_decode_metadata`. Flash/Decode:
--   `_decode_partition_size_for_metadata`, `_attach_decode_shape_hints` and
--   `_update_decode_active_num_partitions`. Flash/Builder: `build`, `build_for_cudagraph_capture`
--   and `build_for_drafting` of `FlashAttnV100MetadataBuilder`, on the buffers that have been
--   allocated: those of the drafts with their contents and with which allocation they are, the
--   others by their shape.
-- - Flash/Cache: `_reset_decode_cache`, `_ensure_decode_cache_capacity` and
--   `_get_decode_kv_single_seq` of `FlashAttnV100Impl` in fork_patches/flash_attn_v100.py, the
--   dense cache of one decoded sequence. Flash/Dense: `flash_v100_dense_prefill`, with its runs of
--   sequences of one length. Flash/Forward: which route `forward` takes, with the switches that
--   `__init__` reads, `_attach_common_flash_metadata`, the tests on the metadata and
--   `_flash_v100_decode_dense_cache`; a route is a name, and carries what the dense decode attends
--   to.
-- - Queries: the locations of the queries of a batch, which both files of metadata read.
-- - KvCache/Policy: `is_quantized_kv_cache`, `get_kv_cache_quant_algo_string`,
--   `checkpoint_kv_quant_allowed` and `resolve_kv_cache_dtype_string` of
--   fork_patches/torch_utils.py, with what `Attention.__init__` of fork_patches/attention.py makes
--   of the result. KvCache/Nvfp4: `_nvfp4_split_data_scale` and the functions beside it.
--   KvCache/Text: the tests on texts.
-- - Prelude: names of the library, Boolean tests, lists over the native numbers, signed integers
--   over them, division, chains of optional results.
--
-- How they interact. Skinny/Layer calls Skinny/Prepack and makes the copies that Skinny/Route
-- tests for; Skinny/SelfCheck calls the dispatch on a layer and keeps the flag that the dispatch
-- reads. Skinny/LmHead packs by Skinny/Prepack and launches by Skinny/Config. Qpn8/Load calls
-- Qpn8/Pack and Qpn8/Scales and fixes the geometry that Qpn8/Dispatch launches with. Qpn8 takes
-- the fragment order from Skinny/Layout, since the source computes the same indices in both files.
-- Gdn/Batch calls Gdn/Contract; in the source its tokens go through the buffer of Gdn/Index, and
-- both kinds of batch write those of Gdn/Fast. Flash/Builder calls Flash/Smallq and Flash/Decode
-- in the order of the source. Flash/Forward calls Flash/Cache, and what it sends to the dense
-- prefill is served by Flash/Dense; Flash/Cache reads the pages by the loop of Flash/Pages.
-- Gdn/Eligible makes the requests that Gdn/Fast writes, and is compared with Gdn/Pure, which is
-- what `build` does for the same batch off the fast path, and which calls Gdn/Contract for the
-- batches that it does not take. Flash/Pages has two readers of the paged cache, the dense view
-- and the copying loop. AllReduce/Norm falls back on AllReduce; KvCache/Policy composes the two
-- files, the resolved dtype being what the first layer reads. Each component's Examples modules
-- apply its theorems to concrete inputs.
--
-- Numbers. Bytes are natural numbers below 256, with the shifts and masks of uint8 written out.
-- Shapes are natural numbers, as in Python. There are four recursions on fuel. `chunk_rows` counts
-- the rounds of a loop over `range(0, m, 8)`; its caller gives it all of them. `walk` counts the
-- rounds of the loop over the ancestors of a draft, of which the source makes at most as many as
-- there are slots; where every parent stands before its children these are enough to reach the
-- root. `dense_rounds` counts the rounds of the loop over the runs; its caller gives it one for
-- each location and one more, which is enough. `bit_length_from` counts the halvings of a number,
-- of which it is given as many as the number.
--
-- Parameters. The CUDA kernels, `split_decodes_and_prefills`, `prepare_fp4_layer_for_marlin`, the
-- marlin kernel, the requantisation of the lm_head and the arithmetic on floats are arguments of
-- the definitions that use them. The hypotheses on them: `Repacks` (the repacking for marlin
-- leaves the other attributes alone and does not replace a weight by an empty tensor), that a
-- result is within the tolerance of itself, that the maximum of one scale is that scale, and that
-- the native kernel computes each row by itself; `Reduces` (a backend that accepts a message
-- returns its sum over the ranks, the kernel of kernels/skinny_ar.cu the messages that pass its
-- checks), `Gates` (the gates of the symmetric memories imply what the log tests of the settings
-- and of the communicator) `IsBatch` (the tensors of one batch have one row for each request),
-- `IsOne` (so for a batch of one request), `Normalises` (each kernel of the normalised all-reduce
-- normalises the sum over the ranks, the fused one of kernels/skinny_ar.cu the messages that its
-- checks accept), `IsCommon` (what the lengths on the host are to those on the device) and
-- `IsBatched` (the attention kernel attends each sequence of a batch by itself). `junk` is what a
-- new buffer holds, `recast` what `copy_` makes of a row of another layout; `cast` is the
-- conversion of a scale to the type of the input.
--
-- Not modelled: the branch of `_extract_contiguous_kv_from_paged_cache` through the CUDA
-- extension, which is taken to copy what the loop copies, the numeric content of the kernels, the
-- global scale (a float that is copied), the logging, the one-time patch of the W4A16 class, the
-- choice of the all-to-all manager, the metadata that vLLM computes for the prefills of the Gated
-- DeltaNet layers, the cached metadata object of their fast build, the attention kernels, what the
-- routes of a prefill or a decode through the pages do, the copies of the tree metadata, the path
-- and the fused argmax of the lm_head, and the files of fork_patches/ not named above.
pub mod Prelude
pub mod Tensor
pub mod Queries
pub mod Skinny
pub mod Qpn8
pub mod AllReduce
pub mod Gdn
pub mod KvCache
pub mod Flash
