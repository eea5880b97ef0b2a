-- ===== src/Lib.antt =====
-- hawkeye: verification of the camera daemon's own logic.
--
-- The program (src/main.c) reads its settings from the command line (src/settings.c, src/config.c), sets up
-- a V4L2 device and takes frames from it (src/v4l2uvc.c), compresses them to JPEG (src/image_utils.c),
-- looks for stripes in the luminance on the way (src/stripe_filter.c), and replaces a file by the
-- picture, until a signal ends it. src/color_detect.c, of which the program calls only the set-up, finds blobs of
-- given colours in a picture and draws their boxes. The debug pictures of both detectors are written as
-- bitmaps by src/bitmap.c; src/utils.c has strings.
--
-- Which file models what:
--
-- Base: Boolean tests on native numbers, lists as C arrays, machine words, buffers with memcpy and
--   memset, writes of single pixels (Image), C strings (Text), %d and snprintf (Print), and single
--   precision floats. A buffer operation is `none` where the C code would touch memory outside
--   the buffer. Files has named files with fopen, fwrite and rename; Report, with Loop and Fitting
--   below it, is the loop by which both detectors write their texts.
-- Main (src/main.c): Output is write_frame, with proofs in Replacing; Loop is signal_handler,
--   grab_frame and main with init_frame_buffers and destroy_frame_buffers for the one device there
--   is, with proofs in Stopping, Grabbing and Serving; DetectColor is parseDetectColor.
-- Settings (src/settings.c, src/settings.h): init_settings and normalize_path; Variables and Launching
--   hold the proofs.
-- Config (src/config.c, src/config.h): Items is the table of options and process_option,
--   add_config_item and get_key_by_name, CommandLine is read_command_line, Again the proof
--   about a second reading; File is read_line and read_config_file, with proofs in FileLines.
-- Video (src/v4l2uvc.c, src/v4l2uvc.h, src/huffman.h): Ioctl is xioctl, with proofs in Retries; Frames is
--   is_huffman and copy_frame, with proofs in Copied and Marked; Capture is capture_frame with its proof. Calls
--   is many calls of xioctl in a row, Enumerate the enumeration of formats, with proofs in
--   Yielding and Enumerated, and Setup the functions that create, use and destroy the device. Protocol is an
--   automaton for the order of calls that V4L2 demands; Listing, Preparing and Started compare the code with it,
--   and Giving, Agreed and Allotted follow the format and the size of the device to its framebuffer.
-- Jpeg (src/image_utils.c): Destination is the callbacks that store libjpeg's output, with proofs in
--   Output; Pixels is the conversion of YUYV and Z16 pixels, with proofs in Groups and, about its colours, in Exact; Compress is
--   compress_yuyv_to_jpeg and compress_z16_to_jpeg, with proofs in Compressing and Depth.
-- StripeFilter (src/stripe_filter.c, src/stripe_filter.h): Gradients is the filter, the thresholds and
--   sf_find_gradients; Clusters is sf_cluster_gradients; Features is the search for the nearest
--   cluster and sf_find_features; Annotate is the marks in the debug picture, Image
--   sf_write_image, Report sf_get_feature_list_data_string. Edges, Members, Nearest, Stripes,
--   Located, Centered, Annotated and Reported hold the proofs.
-- ColorDetect (src/color_detect.c, src/color_detect.h): Blob is the static table `detections` and
--   clear_blobs, find_containing_blob, append_blob, new_blob and new_or_append_blob; Merge is
--   find_largest_blob, bb_overlap, bb_combine, combine_blobs_from_largest,
--   blob_area_over_threshold, cull_blobs and num_complete_blobs; Detect is detect_blobs; Draw is
--   draw_blob and draw_blobs; Report is get_blob_data_string, Line is
--   write_single_blob_data_to_image; Color is colorDetectInit, calcNorms, setDetectColor and rgb_match,
--   Index is build_detect_params and rgb_color_detection. Table with its children, Containing,
--   Largest, Boxes, Drawing, Reported, Written, Indexed, Shown and Composed hold the proofs.
-- Bitmap (src/bitmap.c, src/bitmap.h): Format is the two headers and the colour table as bytes, the
--   module itself bmWriteBitmap and bmWriteBitmapWithColorTable over an interface for stdio;
--   Rows and Reading hold the proofs, with an independent reader of bitmap files.
-- Utils (src/utils.c): Base64 with a decoder in Decode, Trim with proofs in Trimmed.
--
-- How code became definitions. State is passed explicitly: a static variable or an object behind a
-- pointer is an argument and a result. An array with a counter of entries in use is the list of
-- those entries where nothing reads behind it, and otherwise a list of the full length with the
-- counter beside it (the blob table). uint32_t arithmetic keeps its wrap-around, written out; a
-- comparison that C makes between signed and unsigned numbers is made on the patterns.
-- Single precision results of the blob thresholds and the stripe filter are exact: constants are
-- integers over powers of two and products and quotients are rounded to 24 bits, ties to even; the
-- fuel of that rounding is 128, above the number of bits of any value here. The ratios of
-- colours are computed over an interface of float operations. Functions that call the driver
-- pass on the number of calls so far and the list of requests that were carried out. The
-- enumeration of formats ends only when the driver refuses an index, so it runs on fuel, and
-- more fuel than the driver has formats and frame sizes is enough. All other loops are
-- structural: over the elements, over the rounds left, over the rounds that the program lives, or,
-- in is_huffman, over the 2049 bytes that the loop may pass. A null pointer is `none`, as is the C
-- result false or -1 of a function with one error.
--
-- malloc, mmap, stdio, atoi, strtoul, getopt_long, realpath, the answers of the driver, what libjpeg leaves in
-- its buffer, and what of a file reaches the disk are parameters of the definitions that use them.
--
-- Not modelled: the daemon's system calls and the pid file (src/daemon.c), the allocation wrappers
-- (src/memory.c), the frame ring that nothing reads (src/frames.c), time and stat calls (src/utils.c),
-- the version (src/version.c), printed messages, the measured frame rate and the sleep of the main
-- loop, the installation of the signal handler, and the web page.
pub mod Base
pub mod ColorDetect
pub mod Bitmap
pub mod Utils
pub mod StripeFilter
pub mod Video
pub mod Config
pub mod Jpeg
pub mod Files
pub mod Report
pub mod Settings
pub mod Main
