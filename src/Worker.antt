-- ===== src/Worker.antt =====
-- worker/: the job that the queue runs. The crawling engine is not part of the program: its runs
-- are given as what they yield (Worker/Engine), and what the API does while a job runs is given
-- as requests between the worker's steps (Worker/Requests).
pub mod Requests
pub mod Engine
pub mod Settings
pub mod Summary
pub mod Modes
pub mod Live
pub mod Job
