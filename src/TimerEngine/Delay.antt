-- ===== src/TimerEngine/Delay.antt =====
-- `CalcNewTimeVal` of base/TimerEngine.cpp: the delay that the timer descriptor is set to.
